-- ===== src/Ar/Odd.antt =====
-- Members of odd size (Ar.c), which the format of archives fills up with a line feed.
use liblink.Base.{List}
