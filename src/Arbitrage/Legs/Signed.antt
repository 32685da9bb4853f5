-- ===== src/Arbitrage/Legs/Signed.antt =====
-- The signed size of a leg after SyncState.
use opensqt_market_maker.Common.{
  ◌≡◌, refl, ap, subst, ◌∙◌, inl, inr, true, false, Bool-cases, some, List, [], ◌∷◌, arith, String,
  if◌then◌else◌,
}
use opensqt_market_maker.Common.Assoc.{
  lookup, insert, delete, string_eq, lookup-insert, lookup-insert_self, lookup-delete_self,
}
use opensqt_market_maker.Num.{Num, is_zero, is_negative}
use opensqt_market_maker.Num.Laws.{IsGroup, IsOrderedGroup}
use opensqt_market_maker.Num.Group.{neg-neg}
use opensqt_market_maker.Pb.{Position}
use opensqt_market_maker.Pb.Convert.{to_go_decimal}
use Prim.Native.String.{◌++◌}
use text.Mathlib.TextLemmas.{append_cancel_left}
use text.Mathlib.TextEquality.{eq_iff}
use opensqt_market_maker.Arbitrage.Legs.{
  Leg, LegManager, leg_key, is_known, leg_of, sync_position, sync_positions, sync_answer,
  sync_state, signed, signed_of, get_signed_size,
}

module _ (n : Num) (g : IsGroup n) (og : IsOrderedGroup n) where
  open n use {D, zero}

  -- The last size that the list reports of a symbol, if it is not zero, and else what was there.
  unfoldable pub last_size : String → List Position → D → D
  last_size symbol [] d = d
  last_size symbol (p ∷ positions) d =
      let size = to_go_decimal n p.size in
      last_size symbol positions
        (if string_eq.beq p.symbol symbol then (if is_zero n size then d else size) else d)

  signed-leg_of :
      (exchange symbol : String) (size : D) → signed n (leg_of n exchange symbol size) ≡ size
  unfolding signed leg_of
  signed-leg_of exchange symbol size = elim (Bool-cases (is_negative n size)) [
    | inl below ↦ rw below (ap n.neg (og.abs_neg size (ground arith)) ∙ neg-neg n g size)
    | inr above ↦ rw above refl
  ]

  -- The signed size that the legs hold under a key.
  abbrev signed_at : String → List (String × Leg D) → D
  signed_at k legs = signed_of n (lookup k legs)

  key-other :
      (exchange s t : String)
      → string_eq.beq s t ≡ false
      → string_eq.beq (leg_key exchange s) (leg_key exchange t) ≡ false
  unfolding leg_key
  key-other exchange s t ne =
      elim (Bool-cases (string_eq.beq (exchange ++ ":" ++ s) (exchange ++ ":" ++ t))) [
        | inr other ↦ other
        | inl same ↦
            let e =
              append_cancel_left ":" s t
                (append_cancel_left exchange (":" ++ s) (":" ++ t) ((eq_iff _ _).0 same)) in
            absurd (ground (arith, ne, (eq_iff s t).1 e))
      ]

  sync_position-signed :
      (exchange symbol : String) (p : Position) (legs : List (String × Leg D))
      → let d = signed_at (leg_key exchange symbol) legs in
        let size = to_go_decimal n p.size in
        signed_at (leg_key exchange symbol) (sync_position n exchange symbol p legs)
        ≡ (if string_eq.beq p.symbol symbol then (if is_zero n size then d else size) else d)
  unfolding sync_position
  sync_position-signed exchange symbol p legs =
      let key = leg_key exchange symbol in
      let size = to_go_decimal n p.size in
      let leg = leg_of n exchange p.symbol size in
      elim (Bool-cases (string_eq.beq p.symbol symbol)) [
        | inl same ↦
            let e : leg_key exchange p.symbol ≡ key =
              ap (leg_key exchange) ((eq_iff p.symbol symbol).0 same) in
            let found : lookup key (insert (leg_key exchange p.symbol) leg legs) ≡ some leg =
              subst (λ k. lookup k (insert (leg_key exchange p.symbol) leg legs) ≡ some leg) e
                (lookup-insert_self (leg_key exchange p.symbol) leg legs) in
            let stored : signed_at key (insert (leg_key exchange p.symbol) leg legs) ≡ size =
              ap (signed_of n) found ∙ (unfold signed_of in signed-leg_of exchange p.symbol size) in
            ground (arith, same, stored)
        | inr other ↦
            let kept : lookup key (insert (leg_key exchange p.symbol) leg legs) ≡ lookup key legs =
              ground (
                arith,
                lookup-insert (leg_key exchange p.symbol) key leg legs,
                key-other exchange p.symbol symbol other,
              ) in
            let stored : signed_at key (insert (leg_key exchange p.symbol) leg legs)
                ≡ signed_at key legs =
              ap (signed_of n) kept in
            ground (arith, other, stored)
      ]

  sync_positions-signed :
      (exchange symbol : String) (positions : List Position) (legs : List (String × Leg D))
      → signed_at (leg_key exchange symbol) (sync_positions n exchange symbol positions legs)
        ≡ last_size symbol positions (signed_at (leg_key exchange symbol) legs)
  unfolding sync_positions last_size
  sync_positions-signed exchange symbol [] legs = refl
  sync_positions-signed exchange symbol (p ∷ positions) legs =
      sync_positions-signed exchange symbol positions (sync_position n exchange symbol p legs)
      ∙ ap (last_size symbol positions) (sync_position-signed exchange symbol p legs)

  -- After SyncState of a known exchange, GetSignedSize gives the size that the exchange reported last
  -- for the symbol, with its sign: positive for a long position, negative for a short one, and zero
  -- if it reported none or only sizes of zero, whatever the legs were before.
  pub signed_size-sync_state :
      (exchange symbol : String) (positions : List Position) (m : LegManager D)
      → is_known exchange m.exchanges ≡ true
      → get_signed_size n exchange symbol (sync_state n exchange symbol (some positions) m).0
        ≡ last_size symbol positions zero
  unfolding get_signed_size sync_state sync_answer
  signed_size-sync_state exchange symbol positions m known =
      let key = leg_key exchange symbol in
      let cleared : signed_at key (delete key m.legs) ≡ zero =
        ap (signed_of n) (lookup-delete_self key m.legs) ∙ (unfold signed_of in refl) in
      let synced = sync_positions-signed exchange symbol positions (delete key m.legs) in
      rw known (synced ∙ ap (last_size symbol positions) cleared)
