-- ===== src/Error.antt =====
-- src/rtmessage/rtError.h: the codes that the modelled functions return. RT_ERROR and RT_FAIL are
-- the same number; `no_mem` is rtErrorFromErrno(ENOMEM).
pub data RtError : Type 0 where
  ok failed invalid_arg no_mem invalid_expression duplicate_entry protocol_error : RtError
