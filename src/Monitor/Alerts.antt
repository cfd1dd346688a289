-- ===== src/Monitor/Alerts.antt =====
-- What an evaluation makes of each alert.
use v2ray_platform.Base.{
  String, ◌≡◌, refl, ◌∙◌, ap, false, Option, none, some, List, [], ◌∷◌, arith, ◌==◌, eq_iff,
  if◌then◌else◌, Bool-cases, Option-cases, inl, inr, Distinct,
}
use v2ray_platform.Maps.{Map, keys, lookup, insert, lookup-insert, contains-keys, insert-Distinct}
use v2ray_platform.Domain.{Time, Alert}
use v2ray_platform.Monitor.{
  Evaluated, index_alerts, raised, raise_all, resolved, resolve_all, evaluate_indexed,
  evaluate_alerts,
}

map_option : {A : Type 0} {B : Type 0} → (A → B) → Option A → Option B
map_option f none = none
map_option f (some a) = some (f a)

-- when an alert was first seen: as stored, or now
abbrev pub first_seen : Time → Option Alert → Time
first_seen now none = now
first_seen now (some x) = x.first_seen_at

-- What becomes of a stored alert, or of none, when it is found now or not.
abbrev pub next_alert : Time → Option Alert → Option Alert → Option Alert
next_alert now (some a) old = some (record {
  fingerprint = a.fingerprint;
  type = a.type;
  severity = a.severity;
  status = "active";
  title = a.title;
  message = a.message;
  target_type = a.target_type;
  target_id = a.target_id;
  first_seen_at = first_seen now old;
  last_seen_at = now;
})
next_alert now none none = none
next_alert now none (some x) =
    some (if x.status == "active" then record x { status = "resolved"; last_seen_at = now } else x)

module _ (now : Time) where
  raised-next :
      (a : Alert) (old : Option Alert) → some (raised now old a) ≡ next_alert now (some a) old
  unfolding raised
  raised-next a none = refl
  raised-next a (some x) = refl

  raise_all-missing :
      (k : String) (m : Map Alert) (st : Evaluated)
      → lookup k m ≡ none
      → lookup k (raise_all now m st).alerts ≡ lookup k st.alerts
  unfolding raise_all lookup
  raise_all-missing k [] st h = refl
  raise_all-missing k ((i, a) ∷ rest) st h =
      let other : i == k ≡ false = ground arith in
      raise_all-missing k rest _ (ground arith)
      ∙ lookup-insert i k (raised now (lookup i st.alerts) a) st.alerts
      ∙ rw (other)

  raise_all-found :
      (k : String) (a : Alert) (m : Map Alert) (st : Evaluated)
      → Distinct (keys m)
      → lookup k m ≡ some a
      → lookup k (raise_all now m st).alerts ≡ some (raised now (lookup k st.alerts) a)
  unfolding raise_all lookup
  raise_all-found k a [] st d h = cc
  raise_all-found k a ((i, b) ∷ rest) st d h = elim (Bool-cases (i == k)) [
    | inr other ↦
        raise_all-found k a rest _ d.1 (ground arith)
        ∙ ap (λ o. some (raised now o a))
            (lookup-insert i k (raised now (lookup i st.alerts) b) st.alerts ∙ rw (other))
    | inl here ↦
        let gone : lookup k rest ≡ none = ground (arith, d.0, contains-keys k rest, eq_iff i k) in
        let same : i ≡ k = (eq_iff i k).0 here in
        let value : b ≡ a = ground arith in
        raise_all-missing k rest _ gone
        ∙ lookup-insert i k (raised now (lookup i st.alerts) b) st.alerts
        ∙ rw (here, same, value)
  ]

  lookup-resolve_all :
      (k : String) (current m : Map Alert)
      → lookup k (resolve_all now current m) ≡ map_option (resolved now current k) (lookup k m)
  unfolding resolve_all lookup map_option
  lookup-resolve_all k current [] = refl
  lookup-resolve_all k current ((i, x) ∷ rest) = elim (Bool-cases (i == k)) [
    | inl here ↦ let same : i ≡ k = (eq_iff i k).0 here in rw (here) (rw (same))
    | inr other ↦ rw (other) (lookup-resolve_all k current rest)
  ]

  resolved-missing :
      (k : String) (current : Map Alert) (o : Option Alert)
      → lookup k current ≡ none
      → map_option (resolved now current k) o ≡ next_alert now none o
  unfolding resolved map_option
  resolved-missing k current none h = refl
  resolved-missing k current (some x) h = elim (Bool-cases (x.status == "active")) [
    | inl e ↦ rw (e, h)
    | inr e ↦ rw (e)
  ]

  resolved-found :
      (k : String) (a : Alert) (current : Map Alert) (y : Alert)
      → lookup k current ≡ some a
      → map_option (resolved now current k) (some y) ≡ some y
  unfolding resolved map_option
  resolved-found k a current y h = elim (Bool-cases (y.status == "active")) [
    | inl e ↦ rw (e, h)
    | inr e ↦ rw (e)
  ]

  index_alerts-Distinct :
      (xs : List Alert) (m : Map Alert) → Distinct (keys m) → Distinct (keys (index_alerts xs m))
  unfolding index_alerts
  index_alerts-Distinct [] m d = d
  index_alerts-Distinct (a ∷ rest) m d =
      index_alerts-Distinct rest (insert a.fingerprint a m) (insert-Distinct a.fingerprint a m d)

  evaluate_indexed-next :
      (current alerts : Map Alert) (k : String)
      → Distinct (keys current)
      → lookup k (evaluate_indexed now current alerts).alerts
        ≡ next_alert now (lookup k current) (lookup k alerts)
  unfolding evaluate_indexed
  evaluate_indexed-next current alerts k d =
      let st : Evaluated = record { alerts = alerts; sent = [] } in
      lookup-resolve_all k current (raise_all now current st).alerts
      ∙ elim (Option-cases (lookup k current)) [
        | inl missing ↦
            rw (raise_all-missing k current st missing)
              (rw (missing) (resolved-missing k current (lookup k alerts) missing))
        | inr (a, found) ↦ rw (raise_all-found k a current st d found) (
            rw (found) (
              resolved-found k a current (raised now (lookup k alerts) a) found
              ∙ raised-next a (lookup k alerts)))
      ]

-- An evaluation stores each alert that is found now as active and seen now, first seen when the stored
-- one was, or now if none is stored; an active one that is not found any more becomes resolved, and
-- all others stay as they are.
pub evaluate_alerts-next :
    (now : Time) (built : List Alert) (alerts : Map Alert) (k : String)
    → lookup k (evaluate_alerts now built alerts).alerts
      ≡ next_alert now (lookup k (index_alerts built [])) (lookup k alerts)
unfolding evaluate_alerts
evaluate_alerts-next now built alerts k =
    evaluate_indexed-next now (index_alerts built []) alerts k
      (index_alerts-Distinct now built [] tt)
