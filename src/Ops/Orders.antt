-- ===== src/Ops/Orders.antt =====
-- lib/reconcile.js: filled broker orders against the Trade Ledger.
use portfolio_manager.Base.{
  ℕ, suc, ◌+◌, ◌≡◌, refl, String, Bool, true, false, not, ◌&&◌, ◌||◌, Option, none, some, List, [],
  ◌∷◌, any, filter, map, ap, length, if◌then◌else◌, or_else, Bool-cases, inl, inr, arith,
}
use portfolio_manager.Base.Money.{Num}
use portfolio_manager.Base.Text.{◌=s=◌, trim, to_upper, to_lower, is_empty}

-- An order as the broker sends it, under either name of a field; its numbers are read already.
pub record RawOrder : Type 0 where
  pub order_id : Option String
  pub id : Option String
  pub ticker : Option String
  pub symbol : Option String
  pub side : Option String
  pub state : Option String
  pub shares : Option Num
  pub price : Option Num
  pub filled_at : Option String
  pub updated_at : Option String

pub record Order : Type 0 where
  pub order_id : String
  pub ticker : String
  pub side : String
  pub state : String
  pub shares : Option Num
  pub price : Option Num
  pub filled_at : Option String

-- `a ?? b`
abbrev pub first_given : Option String → Option String → Option String
first_given none b = b
first_given (some a) b = some a

unfoldable pub normalize_order : RawOrder → Order
normalize_order raw = record {
  order_id = trim (or_else (first_given raw.order_id raw.id) "");
  ticker = to_upper (trim (or_else (first_given raw.ticker raw.symbol) ""));
  side = to_upper (trim (or_else raw.side ""));
  state = to_lower (trim (or_else raw.state ""));
  shares = raw.shares;
  price = raw.price;
  filled_at = first_given raw.filled_at raw.updated_at;
}

unfoldable pub is_filled : Order → Bool
is_filled order = order.state =s= "filled" || order.state =s= "partially_filled"

pub record Diff : Type 0 where
  pub checked : ℕ
  pub matched : ℕ
  pub missing_from_ledger : List Order
  pub malformed : List RawOrder

abbrev names_row : String → Option String → Bool
names_row id none = false
names_row id (some row) = not (is_empty row) && row =s= id

-- `ledgerOrderIds.has(id)`, over the order ids of the ledger's rows
unfoldable pub in_ledger : List (Option String) → String → Bool
in_ledger rows id = any (names_row id) rows

-- One filled order, added to the diff of the orders after it.
unfoldable pub add_order : List (Option String) → RawOrder → Diff → Diff
add_order rows raw rest =
    let order = normalize_order raw in
    if is_empty order.order_id
    then record rest { checked = suc rest.checked; malformed = raw ∷ rest.malformed }
    else if in_ledger rows order.order_id
    then record rest { checked = suc rest.checked; matched = suc rest.matched }
    else record rest {
      checked = suc rest.checked;
      missing_from_ledger = order ∷ rest.missing_from_ledger;
    }

unfoldable pub reconcile_orders : List RawOrder → List (Option String) → Diff
reconcile_orders [] rows = record {
  checked = 0;
  matched = 0;
  missing_from_ledger = [];
  malformed = [];
}
reconcile_orders (raw ∷ raws) rows =
    let rest = reconcile_orders raws rows in
    if is_filled (normalize_order raw) then add_order rows raw rest else rest

-- Of one order, read on its own: it is filled, and has no id, an id of the ledger, or another id.
abbrev pub is_checked : RawOrder → Bool
is_checked raw = is_filled (normalize_order raw)

abbrev pub lacks_id : RawOrder → Bool
lacks_id raw = is_checked raw && is_empty (normalize_order raw).order_id

abbrev pub is_recorded : List (Option String) → RawOrder → Bool
is_recorded rows raw =
    is_checked raw
    && (not (is_empty (normalize_order raw).order_id)
        && in_ledger rows (normalize_order raw).order_id)

abbrev pub is_unrecorded : List (Option String) → RawOrder → Bool
is_unrecorded rows raw =
    is_checked raw
    && (not (is_empty (normalize_order raw).order_id)
        && not (in_ledger rows (normalize_order raw).order_id))

-- The diff of the orders, by what each one is: every filled order is checked, and is matched, missing or
-- malformed; the lists keep the order of the broker.
pub record Accounts (raws : List RawOrder) (rows : List (Option String)) (d : Diff) : Type 0 where
  pub checked : d.checked ≡ length (filter is_checked raws)
  pub matched : d.matched ≡ length (filter (is_recorded rows) raws)
  pub missing : d.missing_from_ledger ≡ map normalize_order (filter (is_unrecorded rows) raws)
  pub malformed : d.malformed ≡ filter lacks_id raws
  pub counts : d.checked ≡ d.matched + length d.missing_from_ledger + length d.malformed

add_order-Accounts :
    (raw : RawOrder) (raws : List RawOrder) (rows : List (Option String)) (d : Diff)
    → is_filled (normalize_order raw) ≡ true
    → Accounts raws rows d
    → Accounts (raw ∷ raws) rows (add_order rows raw d)
unfolding add_order
add_order-Accounts raw raws rows d f a =
    elim (Bool-cases (is_empty (normalize_order raw).order_id)) [
      | inl e ↦
          rw (add_order, e)
            (record {
              checked = rw f (ap suc a.checked);
              matched = rw (f, e) (a.matched);
              missing = rw (f, e) (a.missing);
              malformed = rw (f, e) (ap (λ xs. raw ∷ xs) a.malformed);
              counts = omega (arith, a.counts);
            })
      | inr e ↦ elim (Bool-cases (in_ledger rows (normalize_order raw).order_id)) [
        | inl k ↦
            rw (add_order, e, k)
              (record {
                checked = rw f (ap suc a.checked);
                matched = rw (f, e, k) (ap suc a.matched);
                missing = rw (f, e, k) (a.missing);
                malformed = rw (f, e) (a.malformed);
                counts = omega (arith, a.counts);
              })
        | inr k ↦
            rw (add_order, e, k)
              (record {
                checked = rw f (ap suc a.checked);
                matched = rw (f, e, k) (a.matched);
                missing = rw (f, e, k) (ap (λ xs. normalize_order raw ∷ xs) a.missing);
                malformed = rw (f, e) (a.malformed);
                counts = omega (arith, a.counts);
              })
      ]
    ]

-- Whatever the broker sends: the diff checks exactly the filled orders, matches as many as have an id in the
-- ledger, reports missing those with another id and malformed those with none, each in the order of the
-- broker, and these three make up all that are checked.
pub reconcile_orders-Accounts :
    (raws : List RawOrder) (rows : List (Option String))
    → Accounts raws rows (reconcile_orders raws rows)
unfolding reconcile_orders
reconcile_orders-Accounts [] rows = record {
  checked = refl;
  matched = refl;
  missing = refl;
  malformed = refl;
  counts = refl;
}
reconcile_orders-Accounts (raw ∷ raws) rows =
    let ih = reconcile_orders-Accounts raws rows in
    elim (Bool-cases (is_filled (normalize_order raw))) [
      | inl e ↦ rw (reconcile_orders, e) (add_order-Accounts raw raws rows _ e ih)
      | inr e ↦
          rw (reconcile_orders, e)
            (record {
              checked = rw e ih.checked;
              matched = rw e ih.matched;
              missing = rw e ih.missing;
              malformed = rw e ih.malformed;
              counts = ih.counts;
            })
    ]
