-- ===== src/Session/Models.antt =====
-- src/session/models.py: the checkout session that is kept across the steps of the saga.
use ihms_oms.Prelude.{◌&&◌, not, nat_beq, ℕ, String, Bool, true, false, Option, none, List, []}

-- A UUID, identified with its canonical text.
abbrev pub Uuid : Type 0
Uuid = ℕ

-- A point in time, UTC, counted in microseconds.
abbrev pub Timestamp : Type 0
Timestamp = ℕ

-- A price is the decimal that `str` prints for a finite float, a sign and digits / 10 ^ scale. The
-- program copies prices and compares them with zero, and `Decimal(str(p))` is that decimal.
pub record Price : Type 0 where
  pub negative : Bool
  pub digits : ℕ
  pub scale : ℕ

-- Whether `ge=0` refuses a price; minus zero is not below zero.
abbrev pub is_below_zero : Price → Bool
is_below_zero p = p.negative && not (nat_beq p.digits 0)

pub data SessionState : Type 0 where
  created held fulfill_pending confirmed abandoned compensated reconciled : SessionState

pub record SessionLineItem : Type 0 where
  pub sku : String
  pub name : String
  pub ihms_product_id : String
  pub ecops_item_code : String
  pub quantity : ℕ
  pub unit_price : Price

pub record CheckoutSession : Type 0 where
  pub session_id : Uuid
  pub correlation_id : String
  pub state : SessionState
  pub hold_id : Option String
  pub order_id : Option Uuid
  pub expires_at : Option Timestamp
  pub idempotency_key : Option String
  pub customer_name : Option String
  pub line_items : List SessionLineItem
  pub created_at : Timestamp

-- `CheckoutSession(correlation_id=…, state=CREATED)`, with the id and the time that the defaults draw.
abbrev pub new_session : Uuid → String → Timestamp → CheckoutSession
new_session session_id correlation_id time = record {
  session_id = session_id;
  correlation_id = correlation_id;
  state = created;
  hold_id = none;
  order_id = none;
  expires_at = none;
  idempotency_key = none;
  customer_name = none;
  line_items = [];
  created_at = time;
}

abbrev pub is_created : SessionState → Bool
is_created created = true
is_created _ = false

abbrev pub is_held : SessionState → Bool
is_held held = true
is_held _ = false

abbrev pub is_fulfill_pending : SessionState → Bool
is_fulfill_pending fulfill_pending = true
is_fulfill_pending _ = false

-- `is_terminal`, as a test on the state.
abbrev pub terminal_state : SessionState → Bool
terminal_state confirmed = true
terminal_state abandoned = true
terminal_state compensated = true
terminal_state reconciled = true
terminal_state _ = false

abbrev pub is_terminal : CheckoutSession → Bool
is_terminal s = terminal_state s.state
