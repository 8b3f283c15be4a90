-- ===== src/Lib.antt =====
-- A model of the C core of SSHPad, a desktop program that manages SSH hosts and tunnels. A local web
-- server shows the user interface; behind it the components below keep the state.
--
-- The parts, and the files that model them:
--   * src/config_parser.c (Text, Config): reads and writes ~/.ssh/config. A `char` array with its NUL
--     is the list of its bytes before the NUL, and an array with a counter is the list of the items in
--     use; copies into an array cut at its size (copy). Config/Host has the structs of
--     src/config_parser.h, Config/Forward parse_forward and parse_dynamic, Config/Fields expand_tilde,
--     apply_defaults and process_kv, Config/Parser the loop of parse_ssh_config, Config/Writer the text
--     that ssh_hosts_write_config writes, Config/Writer/Disk its file and the backup, Config/Json
--     ssh_hosts_to_json and ssh_hosts_from_json. The modules below each have the proofs. The loop goes
--     through the list of buffers that fgets fills, so no fuel is used.
--   * src/process_manager.c (Tunnels): the table of ssh processes, cut at its critical sections, and
--     the notices of the thread that watches a process; Tunnels/Launch has the arguments and the
--     environment of ssh, and read_stderr. pipe, fork, waitpid and read are arguments.
--   * src/askpass.c (Askpass): the table where a request for a password waits for the browser, and the
--     script that ssh calls (Askpass/Script).
--   * src/sse.c (Sse): the clients of the stream of events, and the broadcast to them.
--   * src/config_manager.c (Manager): the modes, the password, and the hosts in use; it stores them in
--     the cloud or in ~/.ssh/config and tells the browser through Sse. The server's answers, the
--     encryption, the JSON form and the files are arguments (Services, Answers); the only law asked of
--     them is that what was encrypted under a password is opened by it. Manager/Store fills Services
--     with the JSON form of Config/Json and the encryption of Crypto.
--   * src/crypto_store.c (Crypto): cs_encrypt and cs_decrypt, the format of the encrypted object.
--     OpenSSL is a parameter (OpenSsl, Draws).
--   * src/r2_client.c (R2): R2/Sign has sign_request, with the digests and the time as parameters
--     (R2/Sign/Uri the encoding of paths that it leaves out);
--     R2/Transfer the requests of r2_get_object, r2_put_object and r2_test_connection, and the two
--     callbacks of libcurl; R2/Settings what r2_config_load and r2_config_save make of the content of the
--     file, and R2/Disk the files.
--   * src/http_server.c (Http): the handlers of every address (Http/Tunnel, Http/Config, Http/Host,
--     Http/Static) and request_handler (Http/Router), which gathers a body piece by piece and calls a
--     handler. The state is that of the components (App), as src/app_context.h joins them; a request
--     that waits for a password is cut where it waits. Http/Program is the step relation of the whole:
--     requests, waits that end, and processes that end, one at a time, from the state that main of
--     src/main.c sets up.
--   * json-c (Json): what the program uses of the library, with its laws, as a parameter (JsonC).
--   * src/util.c (Base64, Uuid): base64_encode and uuid_generate_v4.
--   * src/local_proxy.c (Output, Proxy): write_all, the loop that sends a whole buffer; the searches for
--     the virtual host of a connection, the table of them (Proxy/Vhosts), the entries for /etc/hosts
--     (Proxy/Entries), the certificates (Proxy/Certificates), lp_create (Proxy/Create), lp_start, lp_stop
--     and lp_free (Proxy/Listen), accept_loop (Proxy/Accept), connection_handler (Proxy/Connection) and
--     pipe_data, the loop that carries the bytes of a connection (Proxy/Pipe).
--   * src/main.c (Startup): sanitize_snap_env on the variables of the environment (Environment), and the
--     order in which main and cleanup start and end the parts (Startup/Run).
--   * src/window_state.c (Window), src/terminal_launch.c (Terminal) and src/port_finder.c (Ports): the file
--     of the window's geometry, the command of a terminal, and the search for a port.
-- Prelude has what they share: tests and lists over the native numbers, integers, options. Tests has
-- the theorems at concrete inputs.
--
-- Numbers: atoi and sscanf go through a long of 64 bits that stops at its bounds, and keep the lower
-- 32 bits as an int (int_of_bits). Printing a number uses as many steps as the number, which
-- is enough for its digits. Allocation can fail where the code goes on with less: when the array of
-- hosts grows, and when a piece of a request or of an object is stored.
--
-- An upload is called once more than it has bytes, which is enough since each call but the last gives
-- one at least (R2/Transfer/Chunks).
--
-- The loops of the proxy go through a list of what each round answers, so no fuel is used either.
--
-- Not modelled: the permissions of files; the clock of a wait for a password; the start of the web
-- server, the widgets of the window and the code for macOS, which are calls of libraries; a disk that is
-- full while settings.json is written; and, where main calls lp_create, what that does to mkcert. Locks
-- stand for critical sections, and calls of the config manager are taken one at a time.
pub mod Prelude
pub mod Text
pub mod Json
pub mod Config
pub mod Tunnels
pub mod Output
pub mod Askpass
pub mod Sse
pub mod Crypto
pub mod R2
pub mod Manager
pub mod Http
pub mod Proxy
pub mod Base64
pub mod Uuid
pub mod Environment
pub mod Window
pub mod Startup
pub mod Terminal
pub mod Ports
pub mod Tests
