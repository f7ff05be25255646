-- ===== src/Client/Storage/Memory.antt =====
-- `MemoryStorage` (src/core/secure-storage.ts). Values, which the code writes as JSON, are kept as
-- values.
use nero_mpc_sdk.Base.{
  ◌==◌, ◌≡◌, ◌≢◌, refl, sym, ◌∙◌, Bool, true, false, if◌then◌else◌, Bool-cases, inl, inr, List, [],
  ◌∷◌, ◌++◌, Option, none, some,
}
use nero_mpc_sdk.Hex.{Text, text, same_text, same_text_self, same_text-eq}

pub record MemoryStorage (V : Type 0) : Type 0 where
  pub store : List (Text × V)
  pub prefix : Text

-- `key.startsWith(start)`.
unfoldable pub starts_with : Text → Text → Bool
starts_with [] key = true
starts_with (c ∷ start) [] = false
starts_with (c ∷ start) (d ∷ key) =
    let rest = starts_with start key in if c == d then rest else false

differs : (s t : Text) → s ≢ t → same_text s t ≡ false
differs s t ne = elim (Bool-cases (same_text s t)) [
  | inl e ↦ absurd (ne (same_text-eq s t e))
  | inr e ↦ e
]

pub append_cancel : (p s t : Text) → p ++ s ≡ p ++ t → s ≡ t
append_cancel [] s t e = e
append_cancel (c ∷ p) s t e = append_cancel p s t (cc)

module _ {V : Type 0} where
  -- The operations of the `Map`.
  unfoldable pub lookup : Text → List (Text × V) → Option V
  lookup key [] = none
  lookup key (entry ∷ entries) =
      let rest = lookup key entries in if same_text key entry.0 then some entry.1 else rest

  unfoldable pub put : Text → V → List (Text × V) → List (Text × V)
  put key value [] = (key, value) ∷ []
  put key value (entry ∷ entries) =
      let rest = put key value entries in
      if same_text key entry.0 then (key, value) ∷ entries else entry ∷ rest

  unfoldable pub erase : Text → List (Text × V) → List (Text × V)
  erase key [] = []
  erase key (entry ∷ entries) =
      let rest = erase key entries in if same_text key entry.0 then rest else entry ∷ rest

  unfoldable pub without_prefix : Text → List (Text × V) → List (Text × V)
  without_prefix start [] = []
  without_prefix start (entry ∷ entries) =
      let rest = without_prefix start entries in
      if starts_with start entry.0 then rest else entry ∷ rest

  unfoldable pub prefix_key : MemoryStorage V → Text → Text
  prefix_key m key = m.prefix ++ (text ":" ++ key)

  unfoldable pub get_item : Text → MemoryStorage V → Option V
  get_item key m = lookup (prefix_key m key) m.store

  unfoldable pub set_item : Text → V → MemoryStorage V → MemoryStorage V
  set_item key value m = record m { store = put (prefix_key m key) value m.store }

  unfoldable pub delete_item : Text → MemoryStorage V → MemoryStorage V
  delete_item key m = record m { store = erase (prefix_key m key) m.store }

  unfoldable pub clear_items : MemoryStorage V → MemoryStorage V
  clear_items m = record m { store = without_prefix (m.prefix ++ text ":") m.store }

  lookup-put_same :
      (key : Text) (value : V) (m : List (Text × V)) → lookup key (put key value m) ≡ some value
  unfolding lookup put
  lookup-put_same key value [] = rw (same_text_self key)
  lookup-put_same key value (entry ∷ m) = elim (Bool-cases (same_text key entry.0)) [
    | inl e ↦ rw (e, same_text_self key)
    | inr e ↦ rw (e, e) (lookup-put_same key value m)
  ]

  lookup-put_other :
      (key other : Text) (value : V) (m : List (Text × V))
      → other ≢ key
      → lookup other (put key value m) ≡ lookup other m
  unfolding lookup put
  lookup-put_other key other value [] ne = rw (differs other key ne)
  lookup-put_other key other value (entry ∷ m) ne = elim (Bool-cases (same_text key entry.0)) [
    | inl e ↦ rw (
      e,
      differs other key ne,
      differs other entry.0 (λ f. ne (f ∙ sym (same_text-eq key entry.0 e))),
    )
    | inr e ↦ rw (e, lookup-put_other key other value m ne)
  ]

  lookup-erase_same : (key : Text) (m : List (Text × V)) → lookup key (erase key m) ≡ none
  unfolding lookup erase
  lookup-erase_same key [] = refl
  lookup-erase_same key (entry ∷ m) = elim (Bool-cases (same_text key entry.0)) [
    | inl e ↦ rw e (lookup-erase_same key m)
    | inr e ↦ rw (e, e) (lookup-erase_same key m)
  ]

  prefix_key_differs : (m : MemoryStorage V) (s t : Text) → s ≢ t → prefix_key m s ≢ prefix_key m t
  unfolding prefix_key
  prefix_key_differs m s t ne e = ne (append_cancel (text ":") s t (append_cancel m.prefix _ _ e))

  pub get_item-set_item :
      (key : Text) (value : V) (m : MemoryStorage V)
      → get_item key (set_item key value m) ≡ some value
  unfolding get_item set_item prefix_key
  get_item-set_item key value m = lookup-put_same _ value m.store

  pub get_item-set_item_other :
      (key other : Text) (value : V) (m : MemoryStorage V)
      → other ≢ key
      → get_item other (set_item key value m) ≡ get_item other m
  unfolding get_item set_item prefix_key
  get_item-set_item_other key other value m ne =
      lookup-put_other _ _ value m.store (prefix_key_differs m other key ne)

  pub get_item-delete_item :
      (key : Text) (m : MemoryStorage V) → get_item key (delete_item key m) ≡ none
  unfolding get_item delete_item prefix_key
  get_item-delete_item key m = lookup-erase_same _ m.store
