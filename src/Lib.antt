-- ===== src/Lib.antt =====
-- DPMP: a library that connects the members of a room directly, over TCP and UDP, with a signalling
-- server. This library models its Python implementation (dpmp/ and server/信令服务器.py).
--
-- The server keeps the rooms and their members, tells each what the others' public addresses are, and
-- starts their hole punching at one moment. A client joins through the signalling client, whose
-- events drive the link manager; the manager holds a TCP connection and a reliable UDP channel for
-- each peer, and the path scheduler says which of them to send on and how often to probe them.
--
-- Parts, files and sources:
-- Prelude    numbers, lists, texts, integers, equality tests. Dict: Python's dict, in insertion order.
-- Codec      dpmp/protocol/codec.py: pack_* and unpack_* by their names; Codec/BigEndian is the part
--            of `struct` that they use, with none for struct.error.
-- Rtp        dpmp/link/rtp.py, UdpReliableSocket: Rtp/State its attributes (__init__), Rtp/Sending
--            sendall, _on_ack and _rtx_loop, Rtp/Receiving _on_data's reassembly, recv and (Exact) recv_exact,
--            Rtp/Control SYNC, commits, punching rounds, keepalive and close, Rtp/Packet on_packet,
--            Rtp/Transfer two sockets with a network between them.
-- Path       dpmp/link/path.py: Path/Keepalive KeepaliveScheduler, Path/Scheduler PeerPathScheduler.
-- Server     server/信令服务器.py: Server/State the tables and messages, Server/Join handle_join,
--            Server/Handlers the other handlers, _handle_tcp_reg and cleanup_loop, Server/Persist
--            save_state and load_state, Server/Config load_config and _apply_config, Server/Launcher
--            server/启动.py, Server/Network addresses and sending, Server/Format str.strip, "%d" and
--            fmt_addr, Server/Events the handlers as one sequence of steps, Server/Listening main and
--            the loops over the sockets.
-- Client     the rest of dpmp/: Client/Address dpmp/protocol/addr.py, Client/Signaling and
--            Client/Replies link/signaling.py and link/natprobe.py, Client/Holes the rest of
--            signaling.py (the join message, stop, rebind, the shared UDP socket, and in Probing the
--            thread that probes), Client/Setup its __init__ and _open_mapping and dpmp/defaults.py,
--            Client/Puncher link/puncher.py (Race the candidates' connects), Client/Discovery
--            link/discovery.py (Sending what it sends, Exchange the listeners with their answers,
--            Listening its threads and their loops),
--            Client/Net util/net.py, Client/Manager link/manager.py (State its tables, Events what
--            peers and the network tell it, Sockets on_inbound and _install_socket, Channels
--            get_send_channel and the probes, Punching the parts of _punch_task (Rounds its steps,
--            Interleaved any number of them with the other threads), Udp the UDP channels
--            and the SYNC tasks, Keepalive the checks on connections, Queries what it is asked, Traces
--            its events as one sequence of steps).
-- Application dpmp/stream/channel.py (Channel) and examples/echo.py (Echo).
-- A module under one of these that has no code of its own, such as Server/Join/Password, holds proofs;
-- the Tests modules hold the theorems at concrete inputs.
--
-- A method is a function from the state to the state and what it does to the outside, as a list of
-- effects. Each part that the code runs under a lock, or on one thread between two waits, is one
-- step; what comes from the clock, the network, uuid4 or sha256 is an argument. Times are natural
-- numbers, in the unit that the code uses or, where it uses fractions of seconds, in milliseconds.
--
-- Loops are structural recursion, but for five on fuel. `drain` has the number of waiting packets, each
-- of which a round takes away; `decimal` the number itself, since a tenth of a number is smaller;
-- `chunks` the length of the data, of which a chunk takes something away; `recv_exact`, the socket's and
-- the server's, one round more than the bytes that are missing, since a round that goes on has read one.
--
-- Not modelled: texts that UTF-8 cannot encode, which make a handler of the server that prints or hashes
-- them raise; sockets, threads but for their steps and which of them start, logging, what waits on a lock
-- or a timer beyond its order, printing but for the overview of the rooms, examples/basic_lan.py, which
-- prints what discovery finds, the Kotlin port.
pub mod Prelude
pub mod Dict
pub mod Codec
pub mod Rtp
pub mod Path
pub mod Server
pub mod Client
pub mod Application
