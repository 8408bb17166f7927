-- ===== src/Tests/Tcp.antt =====
-- The theorems on the TCP server at concrete inputs.
use server.Prelude.{true, false, [], ◌∷◌}
use server.TcpServer.{TcpServer, Network, new_server, set_funcs}
use server.TcpServerMgr.{TcpServerMgr}

-- A server with its callbacks and one connection.
abbrev pub listening : TcpServer
listening = record (set_funcs new_server) {
  has_acceptor = true;
  auto_id = 2;
  sessions = (1, 50) ∷ [];
}

-- A network on which no write succeeds.
abbrev pub broken : Network
broken = record {
  write_some = λ socket text. false;
  remote_endpoint = λ socket. record { host = []; port = 80 };
}

-- A manager of this server.
abbrev pub one_server : TcpServerMgr
one_server = record {
  servers = (1, 1) ∷ [];
  locked = false;
  auto_id = 2;
  heap = (1, listening) ∷ [];
}
