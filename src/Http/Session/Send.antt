-- ===== src/Http/Session/Send.antt =====
-- What of a response goes out.
use qslary.Stream.{Stream}
