-- ===== src/Time/Tests.antt =====
-- rtTime.c on concrete times.
use rbus.Time.{Time}

abbrev noon : Time
noon = record { sec = 43200; nsec = 999000000 }

abbrev night : Time
night = record { sec = 86400; nsec = 0 }
