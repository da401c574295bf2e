-- ===== src/Lib.antt =====
-- leantty's SSH library, leantty_ssh/, the Rust part of a terminal client for SSH and Mosh.
--
-- The user interface calls the library's exported functions. A connect call tests its arguments, puts a
-- session with its channels into one of three maps and starts a task; later calls look the session up by
-- its printed id and send to the channels, and the task answers by callbacks. The task connects, asks
-- the user to accept the host key, and authenticates by a state machine that the server's answers and
-- the user's credentials drive; a Mosh session then starts mosh-server over SSH and reads its address.
-- The files of known hosts are edited and searched as text, and key files are made, exported and changed.
--
-- The files, and the code that each of them models:
--   Prelude       what the others share: tests, lists, results, text as a list of characters, decimals.
--   Auth          leantty_ssh/leantty-ssh-core/src/authentication.rs. `AuthStateMachine` is the struct;
--                 a method returns the new record with its answer. Auth.Command makes any sequence of
--                 calls a session.
--   KnownHosts    leantty_ssh/leantty-ssh-core/src/known_hosts.rs. The base64 and HMAC-SHA1 crates are
--                 the record `Crypto`, any functions.
--   Mosh          the mosh_ helpers of leantty_ssh/src/lib.rs: server path, port range, command line,
--                 output.
--   Registry      the session maps of leantty_ssh/src/lib.rs and the exported calls on them; `try_send`
--                 is the answer of a tokio channel to a message, any function. Registry.Connect has the
--                 connect calls up to the task that they spawn.
--   Waits         the waits of leantty_ssh/src/lib.rs (`wait_for_host_key_decision`,
--                 `wait_for_auth_command`, `wait_for_auth_exchange`, `wait_for_connect`) over the events
--                 that a `select!` takes.
--   Login         `run_authentication` of leantty_ssh/src/lib.rs: the loop over the state machine of
--                 Auth. The server, the callback and the user are the record `Peers`, any functions of
--                 the turn.
--   Input         `send_scheduled_input` of leantty_ssh/src/lib.rs, over the answers of the channel and
--                 the sizes that arrive in between, any functions.
--   Transfer      leantty_ssh/src/transfer.rs. What a transfer does is a list of steps with its answer; the
--                 SFTP server, the local file and the clock are the records `PutPeers` and `GetPeers`.
--   Events        the records that the callbacks of leantty_ssh/src/lib.rs carry.
--   Session       `run_connected_session` and `run_channel_writer` of leantty_ssh/src/lib.rs: the loop over
--                 the branches that its `select!` takes, the end of a session, and the task that writes.
--   HostKey       `check_server_key` and `auth_banner` of leantty_ssh/src/lib.rs. russh's reading of the file of
--                 known hosts is the record `HostKeyCrate`, any functions.
--   Keys          leantty_ssh/leantty-ssh-core/src/keygen.rs. The key crates are the record `KeyCrate`, any
--                 functions; the file system is `Disk`, on which every call that reports failures may
--                 fail, and `Path::exists` sees every file that is there (no stat fails, no link
--                 dangles).
--
-- Numbers of 32 bits keep their wrap-around (`u32`); lengths and bytes are natural numbers. Text is a
-- list of characters, and `str_len` its length in UTF-8 bytes. Loops are structural recursion on the
-- lines, patterns, digits or events that they run over. The loops of Login run on fuel, 28 selections
-- and 9 responses in each: there are at most 8 stages of 3 methods, and 8 rounds. The loop of Input
-- has one turn of fuel for each byte, and takes at least one. A poisoned lock is a field of its map.
--
-- Not modelled: russh, tokio, napi, the Mosh protocol crate and the key crates, which are parameters or
-- stand outside; the modes of files; the phases before a session is connected, the transfer task
-- and the Mosh loop of leantty_ssh/src/lib.rs; zeroing of memory and logging, which no result depends on;
-- the test fixtures leantty_ssh/ssh-auth-fixture and leantty_ssh/sftp-interop-fixture.
pub mod Prelude
pub mod Auth
pub mod KnownHosts
pub mod Mosh
pub mod Registry
pub mod Waits
pub mod Login
pub mod Input
pub mod Transfer
pub mod Events
pub mod Session
pub mod Keys
pub mod HostKey
