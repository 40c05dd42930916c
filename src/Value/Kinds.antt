-- ===== src/Value/Kinds.antt =====
-- rbusValueType_t of include/rbus_value.h: the types of a fixed number of bytes, their codes and
-- their sizes (rbusValue_GetL).
use rbus.Base.{ℕ, ◌≡◌, refl, Option, none, some, ◌==◌, if◌then◌else◌}

pub data Kind : Type 0 where
  boolean char byte int8 uint8 int16 uint16 int32 uint32 int64 uint64 single double : Kind

-- The codes count up from RBUS_BOOLEAN.
abbrev pub code : Kind → ℕ
code boolean = 0x500
code char = 0x501
code byte = 0x502
code int8 = 0x503
code uint8 = 0x504
code int16 = 0x505
code uint16 = 0x506
code int32 = 0x507
code uint32 = 0x508
code int64 = 0x509
code uint64 = 0x50A
code single = 0x50B
code double = 0x50C

abbrev pub code_datetime : ℕ
code_datetime = 0x50D

abbrev pub code_string : ℕ
code_string = 0x50E

abbrev pub code_bytes : ℕ
code_bytes = 0x50F

abbrev pub width : Kind → ℕ
width boolean = 1
width char = 1
width byte = 1
width int8 = 1
width uint8 = 1
width int16 = 2
width uint16 = 2
width int32 = 4
width uint32 = 4
width int64 = 8
width uint64 = 8
width single = 4
width double = 8

-- The cases of the switch in rbusValue_Decode that read a number.
unfoldable pub kind_of : ℕ → Option Kind
kind_of c =
    if c == 0x500
    then some boolean
    else if c == 0x501
    then some char
    else if c == 0x502
    then some byte
    else if c == 0x503
    then some int8
    else if c == 0x504
    then some uint8
    else if c == 0x505
    then some int16
    else if c == 0x506
    then some uint16
    else if c == 0x507
    then some int32
    else if c == 0x508
    then some uint32
    else if c == 0x509
    then some int64
    else if c == 0x50A
    then some uint64
    else if c == 0x50B
    then some single
    else if c == 0x50C
    then some double
    else none

pub kind_of-code : (k : Kind) → kind_of (code k) ≡ some k
unfolding kind_of
kind_of-code boolean = refl
kind_of-code char = refl
kind_of-code byte = refl
kind_of-code int8 = refl
kind_of-code uint8 = refl
kind_of-code int16 = refl
kind_of-code uint16 = refl
kind_of-code int32 = refl
kind_of-code uint32 = refl
kind_of-code int64 = refl
kind_of-code uint64 = refl
kind_of-code single = refl
kind_of-code double = refl
