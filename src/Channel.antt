-- ===== src/Channel.antt =====
-- src/channel.rs: `try_recv_msg`. The receiver of a channel is the messages that it has still to read;
-- `hung_up` says whether its senders are gone. Sending is in Shared/Tasks.
use procpool.Common.{List, [], ◌∷◌, Bool, if◌then◌else◌}

pub data Message {ℓ} (T : Type ℓ) : Type ℓ where
  received : T → Message T
  channel_disconnected channel_empty : Message T

-- What is read, and the messages that are left.
unfoldable pub try_recv_msg {ℓ} : {T : Type ℓ} → Bool → List T → Message T × List T
try_recv_msg hung_up (msg ∷ msgs) = (received msg, msgs)
try_recv_msg hung_up [] = (if hung_up then channel_disconnected else channel_empty, [])
