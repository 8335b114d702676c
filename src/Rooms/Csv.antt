-- ===== src/Rooms/Csv.antt =====
-- frontend/src/app/(dashboard)/rooms/page.tsx: the lines of the exported table.
pub mod Laws
use lapor_kos.Prelude.{ℕ, List, [], ◌∷◌, ◌++◌, eqb, map, if◌then◌else◌}
use lapor_kos.Invitations.Chars.{Chars}

-- `.replace(/"/g, '""')`
abbrev pub double_quotes : Chars → Chars
double_quotes [] = []
double_quotes (c ∷ s) = if eqb c b'"' then b'"' ∷ b'"' ∷ double_quotes s else c ∷ double_quotes s

-- `escapeCsvCell` of a value that is not null, by its text.
unfoldable pub escape_csv_cell : Chars → Chars
escape_csv_cell val = b'"' ∷ (double_quotes val ++ (b'"' ∷ []))

-- `.join(separator)`
abbrev pub join : Chars → List Chars → Chars
join separator [] = []
join separator (x ∷ []) = x
join separator (x ∷ y ∷ rest) = x ++ (separator ++ join separator (y ∷ rest))

-- `row.map(escapeCsvCell).join(';')`
unfoldable pub csv_line : List Chars → Chars
unfolding escape_csv_cell
csv_line row = join (b';' ∷ []) (map escape_csv_cell row)

-- `'\uFEFFsep=;\r\n' + csvLines.join('\r\n')`
unfoldable pub csv_content : List (List Chars) → Chars
csv_content table =
    65279 ∷ b's' ∷ b'e' ∷ b'p' ∷ b'=' ∷ b';' ∷ 13 ∷ 10 ∷ join (13 ∷ 10 ∷ []) (map csv_line table)
