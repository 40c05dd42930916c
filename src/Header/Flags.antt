-- ===== src/Header/Flags.antt =====
-- The request flag of a header, among the flag bits that rtMessageFlags names.
use rbus.Base.{◌+◌, ◌*◌, ◌/◌, ◌%◌, ◌≡◌, true, ◌==◌, arith}
use rbus.Base.Bits.{bit_and-one, bit_or-one}
use rbus.Header.{Header, set_is_request, is_request}

-- A header answers as a request exactly if the lowest bit of its flags is set. Setting the flag
-- makes it a request, keeps every higher flag bit, and changes nothing in a request.
pub set_is_request_lem :
    (h : Header)
    → (is_request h ≡ (h.flags % 2 == 1))
      × (is_request (set_is_request h) ≡ true)
      × ((set_is_request h).flags / 2 ≡ h.flags / 2)
      × (is_request h ≡ true → set_is_request h ≡ h)
unfolding set_is_request is_request
set_is_request_lem h = (
  rw (bit_and-one h.flags),
  rw (bit_or-one h.flags, bit_and-one) (ground arith),
  rw (bit_or-one h.flags) (omega arith),
  λ e.
      let e' : (h.flags % 2 == 1) ≡ true = rw bit_and-one at e in
      let f : h.flags / 2 * 2 + 1 ≡ h.flags = ground arith in rw (bit_or-one h.flags, f),
)
