-- ===== src/Core/Utf8.antt =====
-- `String::from_utf8` of Rust's standard library: the well-formed sequences of the Unicode
-- standard. A `String` is the octets of its text.
use dlep.Base.{
  ℕ, ◌-◌, Octets, [], ◌∷◌, Bool, false, ◌&&◌, Option, none, some, leb, ltb, ◌==◌, if◌then◌else◌,
}

abbrev pub Text : Type 0
Text = Octets

-- How many continuation octets are due, and the bounds of the next one.
record Pending : Type 0 where
  due : ℕ
  low : ℕ
  high : ℕ

abbrev within : ℕ → ℕ → ℕ → Bool
within b lo hi = leb lo b && leb b hi

abbrev start : Pending
start = record { due = 0; low = 0; high = 0 }

abbrev more : ℕ → Pending
more n = record { due = n; low = 0x80; high = 0xbf }

first_octet : ℕ → Option Pending
first_octet b =
    if ltb b 0x80
    then some start
    else if within b 0xc2 0xdf
    then some (more 1)
    else if b == 0xe0
    then some (record { due = 2; low = 0xa0; high = 0xbf })
    else if b == 0xed
    then some (record { due = 2; low = 0x80; high = 0x9f })
    else if within b 0xe1 0xef
    then some (more 2)
    else if b == 0xf0
    then some (record { due = 3; low = 0x90; high = 0xbf })
    else if within b 0xf1 0xf3
    then some (more 3)
    else if b == 0xf4
    then some (record { due = 3; low = 0x80; high = 0x8f })
    else none

next_octet : Pending → ℕ → Option Pending
unfolding first_octet
next_octet p b =
    if p.due == 0
    then first_octet b
    else if within b p.low p.high
    then some (more (p.due - 1))
    else none

valid_from : Pending → Octets → Bool
unfolding next_octet
valid_from p [] = p.due == 0
valid_from p (b ∷ v) = elim (next_octet p b) [ none ↦ false | some p' ↦ valid_from p' v ]

unfoldable pub is_utf8 : Octets → Bool
unfolding valid_from
is_utf8 v = valid_from start v
