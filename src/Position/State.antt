-- ===== src/Position/State.antt =====
-- market_maker/internal/trading/position/manager.go: the state of SuperPositionManager.
-- The slots that the three maps share are pointers: the maps hold addresses, and `store` what
-- stands at an address. Locks are left out, as each method is taken as one step.
use opensqt_market_maker.Common.{
  ℕ, Bool, true, List, [], ◌∷◌, ◌++◌, String, if◌then◌else◌, ltb, ◌==◌, length, drop_one, map, ◌&&◌,
  ◌≡◌, ◌↔◌, arith,
}
use opensqt_market_maker.Common.Int.{ℤ, pos, ltb_ℤ, eqb_ℤ, eqb_ℤ_iff}
use opensqt_market_maker.Common.Assoc.{Eq, insert, delete, string_eq, int_eq}
use opensqt_market_maker.Num.{Num}
use opensqt_market_maker.Pb.{InventorySlot, Order, PbDecimal}
use opensqt_market_maker.Pb.Enums.{OrderStatus, status_number, status_number-inj}

pub data SpmError : Type 0 where
  slot_not_found empty_state strategy_not_set strategy_failed : SpmError

pub record SpmConfig (D : Type 0) : Type 0 where
  pub symbol : String
  pub exchange_name : String
  pub price_interval : D
  pub order_quantity : D
  pub min_order_value : D
  pub buy_window_size : ℕ
  pub sell_window_size : ℕ
  pub price_decimals : ℤ
  pub qty_decimals : ℤ

-- pb.Fill. Its FillId is the text of the order's number and of the time.
pub record Fill : Type 0 where
  pub fill_id : ℤ × ℤ
  pub order_id : ℤ
  pub symbol : String
  pub side : String
  pub quantity : PbDecimal
  pub price : PbDecimal
  pub filled_at : ℤ

-- pb.PositionSnapshotData
pub record PositionSnapshotData : Type 0 where
  pub symbol : String
  pub quantity : PbDecimal
  pub entry_price : PbDecimal
  pub market_price : PbDecimal
  pub unrealized_pnl : PbDecimal
  pub timestamp : ℤ

-- pb.PositionUpdate, as it is sent for a fill.
pub record PositionUpdate : Type 0 where
  pub symbol : String
  pub exchange : String
  pub quantity : PbDecimal
  pub current_price : PbDecimal
  pub trigger_order_id : ℤ
  pub trigger_status : OrderStatus

-- The text "<order id>-<status>": two keys are one text only if both parts agree.
abbrev pub UpdateKey : Type 0
UpdateKey = ℤ × OrderStatus

abbrev pub eqb_key : UpdateKey → UpdateKey → Bool
eqb_key a b = eqb_ℤ a.0 b.0 && (status_number a.1 == status_number b.1)

pub eqb_key_iff : (a b : UpdateKey) → (eqb_key a b ≡ true) ↔ (a ≡ b)
eqb_key_iff (a, s) (b, t) = ground (arith, eqb_ℤ_iff a b, status_number-inj s t)

instance abbrev pub key_eq : Eq UpdateKey
key_eq = record { beq = eqb_key; beq_iff = eqb_key_iff }

-- The store of slots, and an assignment through a pointer.
abbrev pub Store : Type 0
Store = ℕ → InventorySlot

abbrev pub write : ℕ → InventorySlot → Store → Store
write r s store a = if r == a then s else store a

pub record SuperPositionManager (D : Type 0) : Type 0 where
  pub config : SpmConfig D
  pub store : Store
  pub fresh : ℕ  -- the first address that is not in use
  pub slots : List (String × ℕ)
  pub order_map : List (ℤ × ℕ)
  pub client_omap : List (String × ℕ)
  pub anchor_price : D
  pub margin_lock_until : ℤ
  pub processed_updates : List (UpdateKey × ℤ)
  pub total_slots : ℕ
  pub active_slots : ℕ
  pub update_callbacks : List ℕ  -- the registered listeners
  pub published : List (ℕ × PositionUpdate)  -- what has been sent, and to which listener
  pub fills : List Fill
  pub order_history : List Order
  pub position_history : List PositionSnapshotData

-- The histories keep their last 1000 entries.
abbrev pub max_history : ℕ
max_history = 1000

unfoldable pub push_history {ℓ} : {A : Type ℓ} → A → List A → List A
push_history a l = let l' = l ++ a ∷ [] in if ltb max_history (length l') then drop_one l' else l'

-- Five minutes in nanoseconds.
abbrev pub five_minutes : ℕ
five_minutes = 300000000000

-- An optional text: Go's "" stands for none.
abbrev pub is_blank : String → Bool
is_blank s = string_eq.beq s ""

-- A delete that is guarded by `if clientOID != ""`.
unfoldable pub delete_client : String → List (String × ℕ) → List (String × ℕ)
delete_client oid clients = if is_blank oid then clients else delete oid clients

unfoldable pub insert_client : String → ℕ → List (String × ℕ) → List (String × ℕ)
insert_client oid r clients = if is_blank oid then clients else insert oid r clients

module _ (n : Num) where
  open n use {D, zero}

  -- NewSuperPositionManager. The strategy is an argument of the methods that call it; what stands
  -- in the store does not matter, as no address is in use.
  unfoldable pub new_super_position_manager : SpmConfig D → Store → SuperPositionManager D
  new_super_position_manager config store = record {
    config = config;
    store = store;
    fresh = 0;
    slots = [];
    order_map = [];
    client_omap = [];
    anchor_price = zero;
    margin_lock_until = pos 0;
    processed_updates = [];
    total_slots = 0;
    active_slots = 0;
    update_callbacks = [];
    published = [];
    fills = [];
    order_history = [];
    position_history = [];
  }

  -- isMarginLocked
  unfoldable pub is_margin_locked : ℤ → SuperPositionManager D → Bool
  is_margin_locked now m = ltb_ℤ now m.margin_lock_until

  -- notifyUpdate: every listener gets the update. (The pool that runs the callbacks is not modelled.)
  unfoldable pub notify_update : PositionUpdate → SuperPositionManager D → SuperPositionManager D
  notify_update u m = record m { published = m.published ++ map (λ cb. (cb, u)) m.update_callbacks }

  -- OnUpdate
  unfoldable pub on_update : ℕ → SuperPositionManager D → SuperPositionManager D
  on_update callback m = record m { update_callbacks = m.update_callbacks ++ callback ∷ [] }
