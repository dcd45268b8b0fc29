-- ===== src/News/Guard/Examples.antt =====
-- A news slot before which one city still plays an ad.
use fm.Base.{
  String, ◌≡◌, refl, true, Option, none, some, List, [], ◌∷◌, if◌then◌else◌, Result, ok, err, ◌==◌,
  string_eq,
}
use fm.Base.Int.{ℤ, pos, ◌+ℤ◌, ◌-ℤ◌}
use fm.Base.Values.{Value, dict, field, end, int}
use fm.Datetime.{Datetime}
use fm.News.Slip.{SlipError, crash, estimate_slip_sec, should_skip_for_slip}
use fm.News.Guard.{Judgement, should_skip_for_slip_lem}

abbrev number : Value → Result SlipError ℤ
number (int n) = ok n
number _ = err crash

abbrev ad_queue : String → Result SlipError (List Value)
ad_queue city =
    if city == "spb"
    then ok (
        dict (
          field "priority" (int (pos 100))
            (field "meta" (dict (field "duration_sec" (int (pos 700)) end)) end))
        ∷ [])
    else ok []

abbrev silent : String → List (String × String)
silent city = []

abbrev no_time : String → Option Datetime
no_time text = none

abbrev no_number : String → Option ℤ
no_number text = none

should_skip_for_slip_lem_example :
    Judgement
      (λ city. estimate_slip_sec no_time no_number number number silent ad_queue city 1000 1005)
      ("msk" ∷ "spb" ∷ [])
      600
      (should_skip_for_slip no_time no_number number number silent ad_queue
        ("msk" ∷ "spb" ∷ [])
        1000
        1005
        600)
should_skip_for_slip_lem_example =
    should_skip_for_slip_lem no_time no_number number number silent ad_queue ("msk" ∷ "spb" ∷ [])
      1000 1005 600

spb_slips :
    should_skip_for_slip no_time no_number number number silent ad_queue
      ("msk" ∷ "spb" ∷ [])
      1000
      1005
      600
    ≡ ok (true, some "spb")
unfolding should_skip_for_slip estimate_slip_sec ◌+ℤ◌ ◌-ℤ◌
spb_slips = refl
