-- ===== src/Address.antt =====
-- TCPAddress of client_resolver.go.
pub mod Equality
use courier_go.Base.{ℕ, String, Bool, ◌&&◌, ◌==◌, str_eq, concat, decimal}

-- `port` is a uint16.
pub record TcpAddress : Type 0 where
  pub host : String
  pub port : ℕ

-- TCPAddress.String
unfoldable pub address_string : TcpAddress → String
unfolding decimal
address_string t = concat t.host (concat ":" (decimal t.port))

-- t == u
unfoldable pub address_eq : TcpAddress → TcpAddress → Bool
address_eq t u = str_eq t.host u.host && t.port == u.port
