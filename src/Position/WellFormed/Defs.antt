-- ===== src/Position/WellFormed/Defs.antt =====
-- What holds of the maps and the store between two calls.
use opensqt_market_maker.Common.{ℕ, suc, ◌<◌, ◌≡◌, ◌≢◌, some, List, [], ◌∷◌, String, arith}
use opensqt_market_maker.Common.Assoc.{Eq, lookup, insert, delete, string_eq}
use text.Mathlib.TextEquality.{eq_iff}
use opensqt_market_maker.Num.{Num}
use opensqt_market_maker.Pb.{InventorySlot}
use opensqt_market_maker.Pb.Convert.{to_go_decimal}
use opensqt_market_maker.Position.State.{SuperPositionManager, Store, write}

module _ {ℓ} {K : Type ℓ} where
  -- Every address of the map is in use.
  unfoldable pub Below : ℕ → List (K × ℕ) → Type 0
  Below fresh [] = Unit
  Below fresh ((k, r) ∷ m) = (r < fresh) × Below fresh m

  -- No two entries of the map share an address.
  unfoldable pub Avoids : ℕ → List (K × ℕ) → Type 0
  Avoids r [] = Unit
  Avoids r ((k, s) ∷ m) = (s ≢ r) × Avoids r m

  unfoldable pub Distinct : List (K × ℕ) → Type 0
  Distinct [] = Unit
  Distinct ((k, r) ∷ m) = Avoids r m × Distinct m

  pub Below-suc : (fresh : ℕ) (m : List (K × ℕ)) → Below fresh m → Below (suc fresh) m
  unfolding Below
  Below-suc fresh [] h = tt
  Below-suc fresh ((k, r) ∷ m) h = (omega arith, Below-suc fresh m h.1)

  Avoids-of_Below : (r : ℕ) (m : List (K × ℕ)) → Below r m → Avoids r m
  unfolding Below Avoids
  Avoids-of_Below r [] h = tt
  Avoids-of_Below r ((k, s) ∷ m) h = (omega arith, Avoids-of_Below r m h.1)

pub Below-nil {ℓ} : (K : Type ℓ) (fresh : ℕ) → Below {K = K} fresh []
unfolding Below
Below-nil K fresh = tt

pub Distinct-nil {ℓ} : (K : Type ℓ) → Distinct {K = K} []
unfolding Distinct
Distinct-nil K = tt

module _ {ℓ} {K : Type ℓ} ⦃e : Eq K⦄ where
  pub Below-insert :
      (fresh : ℕ) (k : K) (r : ℕ) (m : List (K × ℕ))
      → r < fresh
      → Below fresh m
      → Below fresh (insert k r m)
  unfolding Below insert
  Below-insert fresh k r [] lt h = (lt, tt)
  Below-insert fresh k r ((j, s) ∷ m) lt h = ground (arith, Below-insert fresh k r m lt h.1)

  pub Below-delete :
      (fresh : ℕ) (k : K) (m : List (K × ℕ)) → Below fresh m → Below fresh (delete k m)
  unfolding Below delete
  Below-delete fresh k [] h = tt
  Below-delete fresh k ((j, s) ∷ m) h = ground (arith, Below-delete fresh k m h.1)

  pub lt_of_lookup :
      (fresh : ℕ) (k : K) (r : ℕ) (m : List (K × ℕ))
      → Below fresh m
      → lookup k m ≡ some r
      → r < fresh
  unfolding Below lookup
  lt_of_lookup fresh k r [] h l = ground arith
  lt_of_lookup fresh k r ((j, s) ∷ m) h l = ground (arith, lt_of_lookup fresh k r m h.1)

  Avoids-insert :
      (k : K) (r s : ℕ) (m : List (K × ℕ)) → s ≢ r → Avoids r m → Avoids r (insert k s m)
  unfolding Avoids insert
  Avoids-insert k r s [] ne h = (ne, tt)
  Avoids-insert k r s ((j, t) ∷ m) ne h = ground (arith, Avoids-insert k r s m ne h.1)

  -- An address that is new to the map keeps the addresses distinct.
  pub Distinct-insert :
      (k : K) (r : ℕ) (m : List (K × ℕ)) → Below r m → Distinct m → Distinct (insert k r m)
  unfolding Distinct Below insert
  Distinct-insert k r [] b d = (unfold Avoids in tt, tt)
  Distinct-insert k r ((j, s) ∷ m) b d = ground (
    arith,
    Distinct-insert k r m b.1 d.1,
    Avoids-of_Below r m b.1,
    Avoids-insert k s r m (omega arith) d.0,
  )

module _ (n : Num) where
  -- Each entry's key is the text of its slot's price.
  unfoldable pub Keyed : Store → List (String × ℕ) → Type 0
  Keyed store [] = Unit
  Keyed store ((k, r) ∷ m) = (n.show (to_go_decimal n (store r).price) ≡ k) × Keyed store m

  pub Keyed-nil : (store : Store) → Keyed store []
  unfolding Keyed
  Keyed-nil store = tt

  -- A slot is overwritten by one of the same price.
  pub Keyed-write :
      (r : ℕ) (s : InventorySlot) (store : Store) (m : List (String × ℕ))
      → s.price ≡ (store r).price
      → Keyed store m
      → Keyed (write r s store) m
  unfolding Keyed
  Keyed-write r s store [] e h = tt
  Keyed-write r s store ((k, t) ∷ m) e h = ground (arith, Keyed-write r s store m e h.1)

  Keyed-above :
      (fresh : ℕ) (s : InventorySlot) (store : Store) (m : List (String × ℕ))
      → Below fresh m
      → Keyed store m
      → Keyed (write fresh s store) m
  unfolding Keyed Below
  Keyed-above fresh s store [] b h = tt
  Keyed-above fresh s store ((k, t) ∷ m) b h = ground (arith, Keyed-above fresh s store m b.1 h.1)

  pub Keyed-allocate :
      (fresh : ℕ) (k : String) (s : InventorySlot) (store : Store) (m : List (String × ℕ))
      → n.show (to_go_decimal n s.price) ≡ k
      → Below fresh m
      → Keyed store m
      → Keyed (write fresh s store) (insert k fresh m)
  unfolding Keyed Below insert
  Keyed-allocate fresh k s store [] e b h = ground arith
  Keyed-allocate fresh k s store ((j, t) ∷ m) e b h = ground (
    arith,
    eq_iff j k,
    Keyed-allocate fresh k s store m e b.1 h.1,
    Keyed-above fresh s store m b.1 h.1,
  )

  -- Every slot stands under the text of its price, at an address of its own that is in use; and
  -- both order indexes point to addresses in use.
  pub record IsWellFormed (m : SuperPositionManager n.D) : Type 0 where
    pub keyed : Keyed m.store m.slots
    pub distinct : Distinct m.slots
    pub known_slots : Below m.fresh m.slots
    pub known_orders : Below m.fresh m.order_map
    pub known_clients : Below m.fresh m.client_omap
