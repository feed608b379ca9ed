-- ===== src/Gtid/Parse/Ranges.antt =====
-- What parseInterval makes of one number, and of two.
use mathlib.Core.Path.{subst}
use cnmsql.Base.{◌≡◌, sym, ap, ◌∙◌, ◌∷◌, ◌++◌, some, Text, arith}
use cnmsql.Base.Decimal.{parse_int64}
use cnmsql.Base.Int64.{lt64-ltb}
use cnmsql.Base.Split.{cut-whole, cut-append, Lacks}
use cnmsql.Gtid.Interval.{Interval, IsInterval}
use cnmsql.Gtid.Parse.{checked, parse_ends, parse_interval}

checked_lem : (iv : Interval) → IsInterval iv → checked iv.start iv.end ≡ some iv
unfolding checked
checked_lem iv h =
    rw
      (
        lt64-ltb iv.start 1 (omega arith) (omega arith),
        lt64-ltb iv.end iv.start (omega arith) (omega arith),
      )
      (ground arith)

pub parse_interval-one :
    (lo : Text) (iv : Interval)
    → Lacks b'-' lo
    → IsInterval iv
    → parse_int64 lo ≡ some iv.start
    → iv.start ≡ iv.end
    → parse_interval lo ≡ some iv
unfolding parse_interval
parse_interval-one lo iv hl h p e =
    ap parse_ends (cut-whole b'-' lo hl)
    ∙ (unfold parse_ends in
        rw p (subst (λ x. checked iv.start x ≡ some iv) (sym e) (checked_lem iv h)))

pub parse_interval-two :
    (lo hi : Text) (iv : Interval)
    → Lacks b'-' lo
    → IsInterval iv
    → parse_int64 lo ≡ some iv.start
    → parse_int64 hi ≡ some iv.end
    → parse_interval (lo ++ b'-' ∷ hi) ≡ some iv
unfolding parse_interval
parse_interval-two lo hi iv hl h p q =
    ap parse_ends (cut-append b'-' lo hi hl) ∙ (unfold parse_ends in rw (p, q) (checked_lem iv h))
