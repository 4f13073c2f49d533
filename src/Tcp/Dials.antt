-- ===== src/Tcp/Dials.antt =====
-- The dialers that a socket makes for TCP addresses.
use mangos_v.Prelude.{◌≡◌, Bool, Option}
use mangos_v.Prelude.Bytes.{Bytes}
use mangos_v.Prelude.Int.{ℤ}
use mangos_v.Tcp.{TcpDialer}
use mangos_v.Tcp.Settings.{holding}

-- The dialer's options have values of their types.
abbrev IsTyped : TcpDialer → Type 0
IsTyped d = (n : Bool) × (k : Bool) × (p : Option ℤ) × (d.opts ≡ holding n k p)
