-- ===== src/Position/Slots/RoundTrip.antt =====
-- A snapshot that is restored.
use opensqt_market_maker.Common.{
  ℕ, suc, ◌≡◌, ◌≢◌, refl, sym, ap, ap₂, subst, ◌∙◌, none, List, [], ◌∷◌, ◌++◌, String, arith,
}
use mathlib.Core.List.{append-nil, append_assoc, map-append}
use text.Mathlib.TextEquality.{eq_iff}
use opensqt_market_maker.Common.Int.{ℤ}
use opensqt_market_maker.Common.Assoc.{insert, string_eq}
use opensqt_market_maker.Num.{Num}
use opensqt_market_maker.Pb.{InventorySlot}
use opensqt_market_maker.Position.State.{SuperPositionManager, Store, write}
use opensqt_market_maker.Position.Slots.{
  view_slots, restore_slot, restore_slots, restore_state, get_snapshot, cleared,
}
use opensqt_market_maker.Position.WellFormed.Defs.{Below, Below-nil, Below-insert, Below-suc}

-- The key is none of the map's.
abbrev pub Absent {ℓ} : {V : Type ℓ} → String → List (String × V) → Type 0
Absent k [] = Unit
Absent k ((j, v) ∷ m) = (j ≢ k) × Absent k m

-- The keys of the map are distinct, as those of a Go map are.
abbrev pub DistinctKeys {ℓ} : {V : Type ℓ} → List (String × V) → Type 0
DistinctKeys [] = Unit
DistinctKeys ((k, v) ∷ m) = Absent k m × DistinctKeys m

pub insert_new {ℓ} :
    {V : Type ℓ} (k : String) (v : V) (m : List (String × V))
    → Absent k m
    → insert k v m ≡ m ++ (k, v) ∷ []
unfolding insert
insert_new k v [] a = refl
insert_new k v ((j, w) ∷ m) a = ground (arith, eq_iff j k, insert_new k v m a.1)

-- No key of the one list is one of the other's.
unfoldable pub Apart {ℓ κ} :
    {V : Type ℓ} {W : Type κ} → List (String × V) → List (String × W) → Type 0
Apart [] m = Unit
Apart ((k, v) ∷ l) m = Absent k m × Apart l m

Absent-append {ℓ} :
    {V : Type ℓ} (k j : String) (v : V) (m : List (String × V))
    → Absent k m
    → j ≢ k
    → Absent k (m ++ (j, v) ∷ [])
Absent-append k j v [] a ne = (ne, tt)
Absent-append k j v ((i, w) ∷ m) a ne = (a.0, Absent-append k j v m a.1 ne)

pub Apart-append {ℓ κ} :
    {V : Type ℓ} {W : Type κ} (l : List (String × V)) (j : String) (w : W) (m : List (String × W))
    → Apart l m
    → Absent j l
    → Apart l (m ++ (j, w) ∷ [])
unfolding Apart
Apart-append [] j w m h a = tt
Apart-append ((k, v) ∷ l) j w m h a =
    (Absent-append k j w m h.0 (λ e. a.0 (sym e)), Apart-append l j w m h.1 a.1)

pub Apart-nil {ℓ κ} : {V : Type ℓ} (W : Type κ) (l : List (String × V)) → Apart {W = W} l []
unfolding Apart
Apart-nil W [] = tt
Apart-nil W ((k, v) ∷ l) = (tt, Apart-nil W l)

view_above :
    (fresh : ℕ) (s : InventorySlot) (store : Store) (m : List (String × ℕ))
    → Below fresh m
    → view_slots (write fresh s store) m ≡ view_slots store m
unfolding Below
view_above fresh s store [] b = refl
view_above fresh s store ((k, r) ∷ m) b =
    let same : write fresh s store r ≡ store r = ground arith in
    ap₂ (λ x l. (k, x) ∷ l) same (view_above fresh s store m b.1)

module _ (n : Num) where
  open n use {D}

  restore_slots-view :
      (entries : List (String × InventorySlot)) (m : SuperPositionManager D)
      → DistinctKeys entries
      → Apart entries m.slots
      → Below m.fresh m.slots
      → let m' = restore_slots n entries m in
        view_slots m'.store m'.slots ≡ view_slots m.store m.slots ++ entries
  unfolding restore_slots restore_slot Apart
  restore_slots-view [] m d a b = sym (append-nil _)
  restore_slots-view ((key, s) ∷ entries) m d a b =
      let m' = restore_slot n key s m in
      let store' = write m.fresh s m.store in
      let placed : m'.slots ≡ m.slots ++ (key, m.fresh) ∷ [] = insert_new key m.fresh m.slots a.0 in
      let apart : Apart entries m'.slots =
        subst (Apart entries) (sym placed) (Apart-append entries key m.fresh m.slots a.1 d.0) in
      let below : Below (suc m.fresh) m'.slots =
        Below-insert (suc m.fresh) key m.fresh m.slots (omega arith)
          (Below-suc m.fresh m.slots b) in
      let written : store' m.fresh ≡ s = ground arith in
      let seen : view_slots m'.store m'.slots ≡ view_slots m.store m.slots ++ (key, s) ∷ [] =
        ap (view_slots store') placed
        ∙ map-append _ m.slots ((key, m.fresh) ∷ [])
        ∙ ap₂ (λ l x. l ++ (key, x) ∷ []) (view_above m.fresh s m.store m.slots b) written in
      restore_slots-view entries m' d.1 apart below
      ∙ ap (λ l. l ++ entries) seen
      ∙ append_assoc (view_slots m.store m.slots) ((key, s) ∷ []) entries

  -- RestoreState takes over a snapshot that has a slot: it reports no error, and the snapshot of
  -- the restored manager has the same slots under the same keys, in whatever state the manager was
  -- and at whatever time. Like those of a Go map, the keys are distinct.
  pub restore-snapshot :
      (now : ℤ) (e : String × InventorySlot) (entries : List (String × InventorySlot))
      (m : SuperPositionManager D)
      → DistinctKeys (e ∷ entries)
      → let (m', error) = restore_state n (e ∷ entries) m in
        (error ≡ none) × ((get_snapshot n now m').slots ≡ e ∷ entries)
  unfolding restore_state get_snapshot
  restore-snapshot now e entries m d = (
    refl,
    restore_slots-view (e ∷ entries) (cleared n m) d (Apart-nil ℕ (e ∷ entries))
        (Below-nil String m.fresh),
  )
