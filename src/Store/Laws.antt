-- ===== src/Store/Laws.antt =====
-- What the collections of src/ttasks/_store.py promise to the executor and to callers.
use ttasks.Common.{
  ℕ, ◌≡◌, ◌⊎◌, ◌↔◌, false, none, some, arith, ◌==◌, if◌then◌else◌, ==_refl, Option-cases, inl, inr,
}
use ttasks.Common.Dict.{Dict, lookup, insert, has, lookup-insert, lookup-erase}
use ttasks.Status.{is_sink, cancelled}
use ttasks.Errors.{key_error, ok, raise}
use ttasks.Task.{Task}
use ttasks.Task.Lifecycle.{cancel_cases}
use ttasks.Store.{Kind, set_item, save, get_item, del_item, cancel_item}

-- Every object stands under its own identity.
abbrev pub IsKeyed : {V : Type 0} → (V → ℕ) → Dict V → Type 0
IsKeyed {V} id_of d = (k : ℕ) (v : V) → lookup k d ≡ some v → id_of v ≡ k

module _ {V : Type 0} (kind : Kind V) where
  -- Saving an object never raises. Afterwards it is what is found under its identity, every other
  -- identity has what it had, and objects still stand under their own identities.
  pub save_lem :
      (d : Dict V) (v : V)
      → IsKeyed kind.id_of d
      → (d' : Dict V) × (save kind d v ≡ ok d')
        × (get_item d' (kind.id_of v) ≡ ok v)
        × ((k : ℕ) → k == kind.id_of v ≡ false → get_item d' k ≡ get_item d k)
        × IsKeyed kind.id_of d'
  unfolding save set_item get_item
  save_lem d v keyed = (
    insert (kind.id_of v) v d,
    rw (==_refl (kind.id_of v)),
    ground (arith, lookup-insert (kind.id_of v) (kind.id_of v) v d),
    λ k other. ground (arith, lookup-insert (kind.id_of v) k v d),
    λ k w h. ground (arith, lookup-insert (kind.id_of v) k v d, keyed k w),
  )

-- After a deletion the identity is not there, every other one has what it had; and a deletion
-- raises KeyError exactly where the identity was not there before.
pub del_item_lem :
    {V : Type 0} (d : Dict V) (k : ℕ)
    → ((d' : Dict V)
        → del_item d k ≡ ok d'
        → (j : ℕ) → lookup j d' ≡ (if j == k then none else lookup j d))
      × ((del_item d k ≡ raise (key_error k)) ↔ (has k d ≡ false))
unfolding del_item
del_item_lem d k =
    (λ d' h j. ground (arith, lookup-erase k j d), ((λ h. ground arith), (λ h. rw h)))

get_item-found :
    {V : Type 0} (d : Dict V) (k : ℕ) {v : V} → lookup k d ≡ some v → get_item d k ≡ ok v
unfolding get_item
get_item-found d k h = ground arith

get_item-absent :
    {V : Type 0} (d : Dict V) (k : ℕ) → lookup k d ≡ none → get_item d k ≡ raise (key_error k)
unfolding get_item
get_item-absent d k h = ground arith

-- Cancelling a stored task keeps it in the collection, in its place: it is found under its identity
-- as `Task.cancel` leaves it, and nothing else changes. A missing identity raises KeyError.
pub cancel_item_lem :
    (d : Dict Task) (k : ℕ)
    → ((lookup k d ≡ none) × (cancel_item d k ≡ raise (key_error k)))
      ⊎ ((t : Task) × (d' : Dict Task) × (lookup k d ≡ some t)
          × (cancel_item d k ≡ ok d')
          × ((j : ℕ)
              → lookup j d' ≡ (
                  if j == k
                  then some (if is_sink t.status then t else record t { status = cancelled })
                  else lookup j d)))
unfolding cancel_item
cancel_item_lem d k = elim (Option-cases (lookup k d)) [
  | inl absent ↦ inl (absent, rw (get_item-absent d k absent))
  | inr (t, found) ↦ inr (
    t,
    insert k (if is_sink t.status then t else record t { status = cancelled }) d,
    found,
    rw (get_item-found d k found, cancel_cases t),
    λ j. lookup-insert k j _ d,
  )
]
