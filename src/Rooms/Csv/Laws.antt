-- ===== src/Rooms/Csv/Laws.antt =====
-- What a reader of quoted cells gets back from a line.
use lapor_kos.Prelude.{
  ℕ, ◌≡◌, refl, ap, ◌∙◌, inl, inr, List, [], ◌∷◌, ◌++◌, Option, none, some, arith, eqb, Bool-cases,
  sym, if◌then◌else◌,
}
use lapor_kos.Invitations.Chars.{Chars}
use lapor_kos.Rooms.Csv.{double_quotes, escape_csv_cell, csv_line}

-- Where the reader stands: before a cell, in one, or behind a quotation mark that ends the cell
-- unless another one follows.
pub data Place : Type 0 where
  before inside behind : Place

-- The rest of the current cell, and the cells that follow.
abbrev pub Rest : Type 0
Rest = Option (Chars × List Chars)

abbrev pub push : ℕ → Rest → Rest
push c none = none
push c (some (cell, cells)) = some (c ∷ cell, cells)

abbrev pub start_cell : Rest → Rest
start_cell none = none
start_cell (some (cell, cells)) = some ([], cell ∷ cells)

-- A reader of cells in quotation marks, which are doubled in a cell, with `;` between the cells.
abbrev pub read : Place → Chars → Rest
read before [] = none
read before (c ∷ s) = let rest = read inside s in if eqb c b'"' then start_cell rest else none
read inside [] = none
read inside (c ∷ s) =
    let ended = read behind s in
    let rest = read inside s in if eqb c b'"' then ended else push c rest
read behind [] = some ([], [])
read behind (c ∷ s) =
    let doubled = read inside s in
    let following = read before s in
    if eqb c b'"' then push c doubled else if eqb c b';' then following else none

abbrev pub cells_of : Rest → Option (List Chars)
cells_of none = none
cells_of (some (cell, cells)) = some cells

abbrev pub read_line : Chars → Option (List Chars)
read_line s = cells_of (read before s)

read-double_quotes :
    (v t : Chars) (cells : List Chars)
    → read behind t ≡ some ([], cells)
    → read inside (double_quotes v ++ (b'"' ∷ t)) ≡ some (v, cells)
read-double_quotes [] t cells h = h
read-double_quotes (c ∷ v) t cells h =
    let rest = read-double_quotes v t cells h in
    elim (Bool-cases (eqb c b'"')) [
      | inl quote ↦
          let same : c ≡ b'"' = ground arith in
          rw quote (ap (push b'"') rest ∙ ap (λ d. some (d ∷ v, cells)) (sym same))
      | inr other ↦ rw other (rw other (ap (push c) rest))
    ]

append_quote : (s t : Chars) → (s ++ (b'"' ∷ [])) ++ t ≡ s ++ (b'"' ∷ t)
append_quote [] t = refl
append_quote (c ∷ s) t = ap (λ r. c ∷ r) (append_quote s t)

read-cells : (x : Chars) (xs : List Chars) → read before (csv_line (x ∷ xs)) ≡ some ([], x ∷ xs)
unfolding csv_line escape_csv_cell
read-cells x [] = ap start_cell (read-double_quotes x [] [] refl)
read-cells x (y ∷ ys) =
    let line = b';' ∷ csv_line (y ∷ ys) in
    ap (λ s. start_cell (read inside s)) (append_quote (double_quotes x) line)
    ∙ ap start_cell (read-double_quotes x line (y ∷ ys) (read-cells y ys))

-- A line of at least one cell is read back as its cells, whatever characters they hold.
pub read_line-csv_line :
    (x : Chars) (xs : List Chars) → read_line (csv_line (x ∷ xs)) ≡ some (x ∷ xs)
read_line-csv_line x xs = ap cells_of (read-cells x xs)
