-- ===== src/Payments/Receipt/Laws.antt =====
-- Whose receipt is shown.
use lapor_kos.Prelude.{String, ◌≡◌, refl, true, false, Option, none, some}
use lapor_kos.Api.Request.{returned, thrown}
use lapor_kos.Payments.Receipt.{ReceiptPage, open_receipt, receipt_loaded, close_receipt}

-- The page, and the payment whose receipt was asked for and is not answered yet.
pub record World : Type 0 where
  pub page : ReceiptPage
  pub pending : Option String

-- No other receipt is opened before the answer, and the server answers with the one it was asked for.
pub data Step : World → World → Type 0 where
  opened :
      (w : World) (id : String)
      → w.pending ≡ none
      → Step w (record { page = open_receipt id w.page; pending = some id })
  answered :
      (w : World) (id : String)
      → w.pending ≡ some id
      → Step w (record { page = receipt_loaded (returned id) w.page; pending = none })
  failed :
      (w : World) (m : String)
      → Step w (record { page = receipt_loaded (thrown m) w.page; pending = none })
  closed : (w : World) → Step w (record w { page = close_receipt w.page })

pub data Reach : World → Type 0 where
  fresh : (w : World) → w.page.selected_receipt ≡ none → w.pending ≡ none → Reach w
  step : {w v : World} → Reach w → Step w v → Reach v

-- What is there, in either place, is of the selected payment.
abbrev Owns : Option String → Option String → Type 0
Owns selected none = Unit {0}
Owns selected (some id) = selected ≡ some id

abbrev IsOwn : World → Type 0
IsOwn w =
    Owns w.page.selected_payment w.page.selected_receipt × Owns w.page.selected_payment w.pending

Step-IsOwn : {w v : World} → Step w v → IsOwn w → IsOwn v
unfolding open_receipt receipt_loaded close_receipt
Step-IsOwn (opened w id idle) p = (tt, refl)
Step-IsOwn (answered w id asked) (p, q) = (rw asked at q, tt)
Step-IsOwn (failed w m) (p, q) = (p, tt)
Step-IsOwn (closed w) p = p

Reach-IsOwn : {w : World} → Reach w → IsOwn w
Reach-IsOwn (fresh w a b) = rw (a, b) (tt, tt)
Reach-IsOwn (step r s) = Step-IsOwn s (Reach-IsOwn r)

-- Where no receipt is opened before the one before it is answered, the receipt that is shown is that of
-- the selected payment.
pub receipt_own :
    (w : World) (id : String)
    → Reach w
    → w.page.selected_receipt ≡ some id
    → w.page.selected_payment ≡ some id
receipt_own w id r e = rw e at (Reach-IsOwn r).0

-- Where one is, the receipt of another payment may be shown, with its number and checksum.
pub receipt_stale :
    (s : ReceiptPage) (left other : String)
    → let opened_other = open_receipt other (close_receipt (open_receipt left s)) in
      let late = receipt_loaded (returned left) (receipt_loaded (returned other) opened_other) in
      (late.selected_payment ≡ some other)
      × (late.selected_receipt ≡ some left)
      × (late.receipt_loading ≡ false)
      × (late.show_receipt_modal ≡ true)
unfolding open_receipt receipt_loaded close_receipt
receipt_stale s left other = (refl, refl, refl, refl)
