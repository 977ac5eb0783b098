-- ===== src/Dict.antt =====
-- `std::unordered_map` as the list of its entries in the order of an iteration, which the standard
-- leaves open: nothing below depends on where `insert` puts a new entry.
use helicopter.Base.{
  ◌≡◌, ◌≢◌, refl, Bool, true, false, Option, none, some, List, [], ◌∷◌, arith, Eq, beq_refl,
  if◌then◌else◌,
}

abbrev pub Dict {ℓ κ} : Type ℓ → Type κ → Type (ℓ ⊔ κ)
Dict K V = List (K × V)

abbrev pub values {ℓ κ} : {K : Type ℓ} {V : Type κ} → Dict K V → List V
values [] = []
values ((k, v) ∷ d) = v ∷ values d

abbrev pub is_empty {ℓ κ} : {K : Type ℓ} {V : Type κ} → Dict K V → Bool
is_empty [] = true
is_empty (e ∷ d) = false

module _ {ℓ κ} {K : Type ℓ} {V : Type κ} ⦃e : Eq K⦄ where
  unfoldable pub find : K → Dict K V → Option V
  find k [] = none
  find k ((j, v) ∷ d) = if e.beq j k then some v else find k d

  -- `insert` of the standard map leaves a key that is present as it is.
  unfoldable pub insert : K → V → Dict K V → Dict K V
  insert k v [] = (k, v) ∷ []
  insert k v ((j, w) ∷ d) = if e.beq j k then (j, w) ∷ d else (j, w) ∷ insert k v d

  -- `map[k] = v`
  unfoldable pub assign : K → V → Dict K V → Dict K V
  assign k v [] = (k, v) ∷ []
  assign k v ((j, w) ∷ d) = if e.beq j k then (j, v) ∷ d else (j, w) ∷ assign k v d

  unfoldable pub erase : K → Dict K V → Dict K V
  erase k [] = []
  erase k ((j, w) ∷ d) = if e.beq j k then erase k d else (j, w) ∷ erase k d

  pub find-insert_new :
      (k j : K) (v : V) (d : Dict K V)
      → find k d ≡ none
      → find j (insert k v d) ≡ (if e.beq k j then some v else find j d)
  unfolding find insert
  find-insert_new k j v [] h = refl
  find-insert_new k j v ((i, w) ∷ d) h =
      ground (arith, e.beq_iff k j, e.beq_iff i k, e.beq_iff i j, find-insert_new k j v d)

  pub insert_present : (k : K) (v w : V) (d : Dict K V) → find k d ≡ some w → insert k v d ≡ d
  unfolding find insert
  insert_present k v w [] h = ground arith
  insert_present k v w ((i, u) ∷ d) h = ground (arith, insert_present k v w d)

  pub find-erase_self : (k : K) (d : Dict K V) → find k (erase k d) ≡ none
  unfolding find erase
  find-erase_self k [] = refl
  find-erase_self k ((i, w) ∷ d) = ground (arith, find-erase_self k d)

  pub find-erase_ne : (k j : K) (d : Dict K V) → k ≢ j → find j (erase k d) ≡ find j d
  unfolding find erase
  find-erase_ne k j [] h = refl
  find-erase_ne k j ((i, w) ∷ d) h =
      ground (arith, e.beq_iff i k, e.beq_iff i j, e.beq_iff k j, find-erase_ne k j d)

  pub find-erase :
      (k j : K) (d : Dict K V) → find j (erase k d) ≡ (if e.beq k j then none else find j d)
  unfolding find erase
  find-erase k j [] = ground arith
  find-erase k j ((i, w) ∷ d) =
      ground (arith, e.beq_iff i k, e.beq_iff i j, e.beq_iff k j, find-erase k j d)

  -- What is found after an entry was taken out was there before.
  pub find-erase_from :
      (k j : K) (v : V) (d : Dict K V) → find j (erase k d) ≡ some v → find j d ≡ some v
  find-erase_from k j v d h = ground (arith, find-erase k j d)

  pub find-insert_self_new :
      (k : K) (v : V) (d : Dict K V) → find k d ≡ none → find k (insert k v d) ≡ some v
  find-insert_self_new k v d h = ground (arith, find-insert_new k k v d, beq_refl k)
