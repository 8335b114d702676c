-- ===== src/Properties/Provider/Laws.antt =====
-- The active property is one of the user's, and the storage holds its id.
use lapor_kos.Prelude.{
  String, ◌+◌, ◌≡◌, ◌∙◌, ◌≢◌, ◌↔◌, ◌⊎◌, inl, inr, Bool, true, false, List, [], ◌∷◌, Option, none,
  some, arith, ◌==◌, eq_iff, eq_refl, find, Bool-cases,
}
use lapor_kos.Browser.{Browser}
use lapor_kos.Properties.Types.{PropertySummary}
use lapor_kos.Properties.Storage.{
  get_stored_active_property_id, set_stored_active_property_id, clear_stored_active_property_id,
}
use lapor_kos.Properties.Provider.{
  World, initial, is_member, next_id, refresh_signed_out, refresh_start, refresh_loaded,
  refresh_failed, switch_property, active_property,
}

-- The id in the state is a member's, and is the stored one unless it is empty.
pub record IsConsistent (w : World) : Type 0 where
  pub member :
      (id : String)
      → w.provider.active_property_id ≡ some id
      → is_member id w.provider.properties ≡ true
  pub stored :
      (id : String)
      → w.provider.active_property_id ≡ some id
      → id ≢ ""
      → get_stored_active_property_id w.browser ≡ some id

-- An operation of the provider in a browser. Refreshes and switches come in any order, and
-- several refreshes may be under way.
pub data Step : World → World → Type 0 where
  signed_out : (w : World) → Step w (refresh_signed_out w)
  started : (w : World) → Step w (refresh_start w)
  loaded : (properties : List PropertySummary) (w : World) → Step w (refresh_loaded properties w)
  failed : (message : Option String) (w : World) → Step w (refresh_failed message w)
  switched :
      (property_id : String) (navigate : Bool) (pathname : String) (w : World)
      → Step w (switch_property property_id navigate pathname w).0

pub data Reach (b : Browser) : World → Type 0 where
  mounted : Reach b (record { provider = initial; browser = b })
  next : {w v : World} → Reach b w → Step w v → Reach b v

first-is_member :
    (properties : List PropertySummary) (current stored : Option String) (id : String)
    → next_id properties current stored ≡ some id
    → is_member id properties ≡ true
unfolding next_id
first-is_member [] current stored id h = ground arith
first-is_member (p ∷ ps) current stored id h = ground (arith, eq_refl p.id)

set-stored :
    (id : String) (b : Browser)
    → b.has_window ≡ true
    → get_stored_active_property_id (set_stored_active_property_id id b) ≡ some id
unfolding get_stored_active_property_id set_stored_active_property_id
set-stored id b h = ground arith

HasWindow-Step : {w v : World} → Step w v → v.browser.has_window ≡ w.browser.has_window
unfolding refresh_signed_out refresh_start refresh_loaded refresh_failed switch_property
    set_stored_active_property_id clear_stored_active_property_id
HasWindow-Step (signed_out w) = ground arith
HasWindow-Step (started w) = ground arith
HasWindow-Step (loaded properties w) = ground arith
HasWindow-Step (failed message w) = ground arith
HasWindow-Step (switched id navigate pathname w) = ground arith

Step-IsConsistent :
    {w v : World} → Step w v → w.browser.has_window ≡ true → IsConsistent w → IsConsistent v
unfolding refresh_signed_out refresh_start refresh_failed switch_property refresh_loaded
Step-IsConsistent (signed_out w) b h = record {
  member = λ id e. ground arith;
  stored = λ id e full. ground arith;
}
Step-IsConsistent (started w) b h = record { member = h.member; stored = h.stored }
Step-IsConsistent (loaded properties w) b h = record {
  member =
      first-is_member properties w.provider.active_property_id
        (get_stored_active_property_id w.browser);
  stored = λ id e full. ground (arith, e, set-stored id w.browser, eq_iff id "");
}
Step-IsConsistent (failed message w) b h = record { member = h.member; stored = h.stored }
Step-IsConsistent (switched property_id navigate pathname w) b h = record {
  member = λ id e. ground (arith, h.member id);
  stored = λ id e full. ground (arith, h.stored id, set-stored property_id w.browser);
}

Reach-HasWindow :
    {b : Browser} {w : World} → b.has_window ≡ true → Reach b w → w.browser.has_window ≡ true
Reach-HasWindow h mounted = h
Reach-HasWindow h (next r step) = HasWindow-Step step ∙ Reach-HasWindow h r

-- In a browser, whatever operations follow the mounting and in whatever order: the active id is
-- that of one of the listed properties, and the storage holds it, unless it is empty.
pub Reach-IsConsistent :
    (b : Browser) (w : World) → b.has_window ≡ true → Reach b w → IsConsistent w
Reach-IsConsistent b w h mounted = record {
  member = λ id e. ground arith;
  stored = λ id e full. ground arith;
}
Reach-IsConsistent b w h (next r step) =
    Step-IsConsistent step (Reach-HasWindow h r) (Reach-IsConsistent b _ h r)

find_member :
    (id : String) (properties : List PropertySummary)
    → is_member id properties ≡ true
    → (p : PropertySummary) × (find (λ q. q.id == id) properties ≡ some p) × (p.id ≡ id)
find_member id [] h = cc
find_member id (q ∷ qs) h = elim (Bool-cases (q.id == id)) [
  | inl same ↦ (q, rw same, (eq_iff q.id id).0 same)
  | inr other ↦
      let (p, found, same) = find_member id qs (rw other at h) in (p, rw other found, same)
]

-- In a browser, after any operations of the provider, an active id names one of the listed
-- properties: the provider never offers `null` for it.
pub active_property-some :
    (b : Browser) (w : World) (id : String)
    → b.has_window ≡ true
    → Reach b w
    → w.provider.active_property_id ≡ some id
    → (p : PropertySummary) × (active_property w.provider ≡ some p) × (p.id ≡ id)
unfolding active_property
active_property-some b w id h r e =
    let (p, found, same) =
      find_member id w.provider.properties ((Reach-IsConsistent b w h r).member id e) in
    (p, ground (arith, e, found), same)

-- A reload of the list keeps the active property while the user is a member of it, and takes the
-- stored one when none is active yet.
pub refresh_keeps :
    (properties : List PropertySummary) (w : World) (id : String)
    → id ≢ ""
    → is_member id properties ≡ true
    → (w.provider.active_property_id ≡ some id)
      ⊎ ((w.provider.active_property_id ≡ none)
          × (get_stored_active_property_id w.browser ≡ some id))
    → (refresh_loaded properties w).provider.active_property_id ≡ some id
unfolding refresh_loaded
refresh_keeps properties w id full member h = ground (arith, eq_iff id "")

next_id-none_iff :
    (properties : List PropertySummary) (current stored : Option String)
    → (next_id properties current stored ≡ none) ↔ (properties ≡ [])
unfolding next_id
next_id-none_iff [] current stored = ground arith
next_id-none_iff (p ∷ ps) current stored = ground arith

-- A switch to a property that is not listed changes nothing; to a listed one, it makes that one
-- active, stores it, starts a new scope and leaves the list alone.
pub switch_property_lem :
    (property_id : String) (navigate : Bool) (pathname : String) (w : World)
    → w.browser.has_window ≡ true
    → let (v, path) = switch_property property_id navigate pathname w in
      ((is_member property_id w.provider.properties ≡ false) × (v ≡ w) × (path ≡ none))
      ⊎ ((is_member property_id w.provider.properties ≡ true)
          × (v.provider.active_property_id ≡ some property_id)
          × (get_stored_active_property_id v.browser ≡ some property_id)
          × (v.provider.scope_version ≡ w.provider.scope_version + 1)
          × (v.provider.properties ≡ w.provider.properties))
unfolding switch_property
switch_property_lem property_id navigate pathname w h =
    ground (arith, set-stored property_id w.browser)
