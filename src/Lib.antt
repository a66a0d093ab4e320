-- ===== src/Lib.antt =====
-- A softmodem that answers calls over SIP or Asterisk's AudioSocket, and the parts of it that are
-- modelled here.
--
-- Audio frames come in over an AudioSocket connection (src/ast_socket) and go through a modem
-- (src/modem); the bits of the modem are framed and unframed as an asynchronous serial line
-- (src/serial), and the bytes go to a bulletin board or a PPP daemon (src/call, src/bbs, src/ppp).
--
--   Base          names that all modules share, tests on numbers, lists, machine words
--   Serial        src/serial/sm_async.c: Queue (sm_bitq_*), Deframer (sm_deframer_*), and Link, the
--                 two ends as src/call/sm_call.c uses them (bbs_write, call_get_bit)
--   AudioSocket   src/ast_socket/sm_ast_socket.c: Net (recv_into), Reader (sm_ast_read), Writer
--                 (send_all, sm_ast_write, sm_ast_write_audio), Open (sm_ast_listen,
--                 sm_ast_connect and their unix forms, sm_ast_uuid_string)
--   V22bis        src/modem/v22bis: Scrambler (scramble, descramble), Symbols (decode_baud,
--                 decode_baudx), Transmit (training_get, getbaud), Receive (the switch of
--                 process_half_baud), Pulse (v22bis_tx), Carrier (v22bis_rx,
--                 symbol_sync, v22bis_rx_restart)
--   Ppp           src/ppp/sm_pppd.c: Relay, the loop of sm_pppd_shim_main, and Spawn, the command
--                 line of sm_pppd_spawn
--   Sip           src/sip/sm_sip.c: Ulaw (sm_ulaw_decode, sm_ulaw_encode), Rtp (process_rtp and the
--                 packets of feed_daemon), Media (enqueue_rx, audio_tick), Clock (ts_add_ms), Call
--                 (handle_invite and the other handlers, end_call), Text (copy_line_value,
--                 extract_tag, the headers of parse_sip), Parse (parse_sip, extract_sdp, the choice
--                 of the handler in sm_sip_run), Response (build_response and what the
--                 handlers reply with), Loop (send_bye, feed_daemon, audio_tick,
--                 sm_sip_run)
--   Doors         src/bbs/doors: SpaceTrader (space_trader.c), Dungeon (dungeon.c), Blackjack
--                 (blackjack.c), Hangman (hangman.c)
--   Bbs           src/bbs/bbs.c: Text (password_hash and the C library's text functions), Session
--                 (handle_line, and door_find of src/bbs/doors/door_manager.c), Feed
--                 (bbs_session_feed, bbs_session_take_ppp), Tick (bbs_session_tick)
--   Call          src/call/sm_call.c: Bits (call_put_bit, call_status, call_v8_result), Pppd
--                 (start_pppd, ppp_flush, pump_ppp), Engines (the functions of the modem engines),
--                 Audio (the loop of process_audio), Process (the rest of it, bm_poll), Init
--                 (sm_call_init), Run (sm_call_run), Valid (what each of them keeps), Line
--                 (src/sip/sm_sip.c writes to the connection that this reads)
--   Main          src/main: Args (the loop over the command line), Daemon (the options of
--                 sm_daemon.c), Bridge (those of sm_sip_main.c), Serve (the daemon's callers,
--                 and sm_ast_accept of src/ast_socket/sm_ast_socket.c)
--   Tests         the theorems at work on concrete inputs
--
-- C structs are records, C enums are data types, and a call that changes its struct returns the new
-- one. Words of fixed width wrap by an explicit remainder. The filled part of a C array with a
-- length is a list.
--
-- A connected socket is the bytes that wait in it and the outcomes of the coming polls, so that
-- every cut of the stream into reads, and every place of a timeout, is one value. The loops of
-- sm_ast_read run on fuel, which is the number of bytes that are missing: each round that goes on
-- has read at least one. The loops in recv_into and send_all run over the list of polls.
--
-- A symbol of the V.22bis transmitter is an index into its constellation, and its source of bits is
-- a parameter. The receiver is given the index that its slicer has found.
--
-- A round of the PPP shim is given by what poll, read and write report in it. An RTP packet is a
-- list of bytes, and an access that misses it has an outcome of its own. A 16-bit sample is its
-- pattern. The clock's loop runs on fuel, which is the number of whole seconds to carry.
--
-- A run of sm_sip_run is the list of what its polls report. A pump's ticks are a list as well, each
-- with the clock behind it and the daemon's replies; a pump stops at its end.
--
-- SIP text is a list of characters that ends where the datagram ends; numbers in it that are not
-- positive are 0, which is how the code treats them. A SIP request is what the parser has found in
-- it, and what the system gives to an INVITE (a socket, a port, the daemon) is a value of its own;
-- a response is its status.
--
-- The board's session takes its data base and its games as parameters: who a name and a hash belong
-- to, the number of a new user, and whether a game returns to the menu. Of what it writes only the
-- echo is kept. Credits, hit points and the like are natural numbers where each is guarded before
-- it is lowered; the balance of blackjack has a sign. The dealer's loop runs on fuel, one round for
-- each point below 17, since a card is worth one at least.
--
-- The call takes the modem engines as a parameter: V.22bis, spanDSP's V.8 and V.34, and BinModem.
-- One function of an engine is a script, a tree of the callbacks that it makes, whose branches are
-- the bits that it is given. A run of sm_call_run is the list of what its reads give, each with
-- what the system says to the rest of that round; the answers of write to a flush are a list, the
-- answer behind its end being a refusal. The sample loop needs no fuel: it recurs on the samples.
-- The byte counts of a call do not wrap. Beside the fields of the call stands the list of the ptys
-- that are open, so that one which is given up without a close shows.
--
-- Not modelled: everything in floating point (the sums of the pulse shaping and of the filters, the
-- equalizer, the slicer, the power meter, carrier recovery; what they are compared with enters as
-- the outcome of the comparison), the making and closing of the SIP agent, the V.8 code of other
-- projects, the texts that src/main writes, the speed challenge, the log, and the audio ring of
-- src/audio, which the program does not call.
pub mod Base
pub mod Serial
pub mod AudioSocket
pub mod V22bis
pub mod Ppp
pub mod Sip
pub mod Doors
pub mod Bbs
pub mod Call
pub mod Main
pub mod Tests
