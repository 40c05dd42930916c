-- ===== src/Time.antt =====
-- src/rtmessage/rtTime.c: points in time as seconds and nanoseconds. A NULL argument is `none`, and
-- stands for the clock's reading `now`.
pub mod Order
mod Tests
use rbus.Base.{
  ℕ, ◌+◌, ◌-◌, ◌*◌, ◌/◌, ◌%◌, ◌^◌, Bool, true, false, ◌&&◌, ◌||◌, Option, none, some, ltb, leb,
  ◌==◌, if◌then◌else◌,
}
use rbus.Base.Int.{ℤ, signed}

pub record Time : Type 0 where
  pub sec : ℕ
  pub nsec : ℕ

abbrev pub get_or_now : Option Time → Time → Time
get_or_now none now = now
get_or_now (some t) now = t

abbrev pub billion : ℕ
billion = 1000000000

-- The carry of rtTime_Later.
carry : Time → Time
carry t = if leb billion t.nsec then record { sec = t.sec + 1; nsec = t.nsec - billion } else t

-- rtTime_Later
pub later : Time → Option Time → ℕ → Time
unfolding carry
later now start ms =
    let t = get_or_now start now in
    carry (record { sec = t.sec + ms / 1000; nsec = t.nsec + ms % 1000 * 1000000 })

-- The difference of two numbers, taken into an `int`.
abbrev pub to_int : ℕ → ℕ → ℤ
to_int a b = signed 32 ((a % 2 ^ 32 + (2 ^ 32 - b % 2 ^ 32)) % 2 ^ 32)

-- rtTime_Elapsed
pub elapsed : Time → Time → Option Time → ℤ
elapsed now start end_ =
    let e = get_or_now end_ now in
    if leb start.nsec e.nsec
    then to_int (e.sec * 1000 + (e.nsec - start.nsec) / 1000000) (start.sec * 1000)
    else to_int (e.sec * 1000 + (billion + e.nsec - start.nsec) / 1000000) ((start.sec + 1) * 1000)

pub data Sign : Type 0 where
  before same after : Sign

-- rtTime_Compare
pub compare_times : Time → Option Time → Option Time → Sign
compare_times now left right =
    let l = get_or_now left now in
    let r = get_or_now right now in
    if ltb l.sec r.sec || (l.sec == r.sec && ltb l.nsec r.nsec)
    then before
    else if ltb r.sec l.sec || (l.sec == r.sec && ltb r.nsec l.nsec)
    then after
    else same
