-- ===== src/Tests.antt =====
-- Concrete inputs, and the theorems at work on them.
mod Runs
mod Data
mod Peers
mod Documents
mod Fetching
mod Random
mod Pool
use uvg_torrent.Base.{
  ℕ, ◌-◌, ◌^◌, ◌<◌, true, false, some, none, [], ◌∷◌, refl, arith, Option, List, length, All,
}
use uvg_torrent.Libc.{CString}
use uvg_torrent.Os.{Os, World}
use uvg_torrent.Socket.{Socket, SocketType}
use uvg_torrent.Tracker.State.{Tracker}
use uvg_torrent.Tracker.Silent.{IsSilent}

-- A system that opens and sends, and to which nothing comes back.
abbrev pub quiet_os : Os
quiet_os = record {
  socket = λ n. some 3;
  gethostbyname = λ n. some ((b'1' ∷ []) ∷ []);
  bind = λ n. true;
  getsockname = λ n. true;
  connect = λ n. true;
  send = λ n. true;
  recv = λ n. none;
  rand = λ n. 7;
  stack = λ n i. 0;
  frame = λ n. 2 ^ 47 - 4096;
}

pub quiet_os-IsSilent : IsSilent quiet_os
quiet_os-IsSilent = record { takes = λ n. refl; silent = λ n. refl }

abbrev pub outset : World
outset = record { now = 0; log = [] }

abbrev pub open_socket : Socket
open_socket = record {
  ip = b'1' ∷ [];
  port = 80;
  sock_desc = some 3;
  type = SocketType.udp;
  remote_addr = none;
}

abbrev pub new_tracker : Tracker
new_tracker = record {
  url = b'a' ∷ [];
  port = b'8' ∷ [];
  ip = some (b'1' ∷ []);
  connected = false;
  attempts = 0;
  max_attempts = 5;
  connection_id = 0;
  last_transaction_id = 7;
  tracker_socket = none;
}

abbrev pub connected_tracker : Tracker
connected_tracker = record new_tracker {
  connected = true;
  tracker_socket = some open_socket;
  attempts = 3;
}
