-- ===== src/Application/Channel.antt =====
-- dpmp/stream/channel.py: one face for the two kinds of socket. The socket that it wraps is a record
-- of what its methods do to the socket's state.
use dpmp.Prelude.{ℕ, Bool, false, Option, none, some}
use dpmp.Codec.BigEndian.{Bytes}
use dpmp.Path.Keepalive.{Role}

-- A method gives its result, or none where it raises, and the socket as it is then. `is_udp_rtp` is
-- the attribute, which a TCP socket does not have.
pub record Methods (S : Type 0) : Type 0 where
  pub is_udp_rtp : Option Bool
  pub sendall : Bytes → S → Bool × S
  pub recv : ℕ → S → Option Bytes × S
  pub recv_into : ℕ → S → Option Bytes × S
  pub recv_exact : ℕ → S → Option Bytes × S
  pub settimeout : Option ℕ → S → S
  pub close : S → S

-- getattr(sock, "is_udp_rtp", False)
unfoldable pub is_udp_rtp : Option Bool → Bool
is_udp_rtp none = false
is_udp_rtp (some b) = b

-- Channel: the lock is a number, the role "?" none.
pub record Channel (S : Type 0) : Type 0 where
  pub methods : Methods S
  pub sock : S
  pub io_lock : ℕ
  pub role : Option Role
  pub is_udp : Bool

module _ {S : Type 0} where
  unfoldable pub wrap_channel : Methods S → S → ℕ → Option Role → Channel S
  unfolding is_udp_rtp
  wrap_channel ms sock io_lock role = record {
    methods = ms;
    sock = sock;
    io_lock = io_lock;
    role = role;
    is_udp = is_udp_rtp ms.is_udp_rtp;
  }

  abbrev after {ℓ} : {A : Type ℓ} → Channel S → A × S → A × Channel S
  after c (a, s) = (a, record c { sock = s })

  unfoldable pub sendall : Bytes → Channel S → Bool × Channel S
  sendall bytes c = after c (c.methods.sendall bytes c.sock)

  unfoldable pub recv : ℕ → Channel S → Option Bytes × Channel S
  recv n c = after c (c.methods.recv n c.sock)

  unfoldable pub recv_into : ℕ → Channel S → Option Bytes × Channel S
  recv_into n c = after c (c.methods.recv_into n c.sock)

  unfoldable pub recv_exact : ℕ → Channel S → Option Bytes × Channel S
  recv_exact n c = after c (c.methods.recv_exact n c.sock)

  unfoldable pub settimeout : Option ℕ → Channel S → Channel S
  settimeout t c = record c { sock = c.methods.settimeout t c.sock }

  unfoldable pub close : Channel S → Channel S
  close c = record c { sock = c.methods.close c.sock }
