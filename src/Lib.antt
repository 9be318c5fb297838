-- ===== src/Lib.antt =====
-- blehostd: a daemon that offers a BLE host stack to a client over a socket, in JSON messages. This
-- library models the code of apps/blehostd/src and proves properties of it.
--
-- The parts of the program, and the files that model them:
-- * bhd_util.c, readers of JSON values: Json (numbers, Booleans, texts, bytes, addresses, names),
--   Uuid (16-bit and 128-bit UUIDs), JsonArr (arrays, with the callbacks), Svc (services,
--   characteristics and descriptors). They are functions over Cjson, a record with the fields and
--   functions of the cJSON library that the code uses; the library itself is outside the repository.
--   A reader's value, or the code it leaves in `*rc`, is a Result (Status).
-- * parse.c, and bhd_hex_str and bhd_addr_str of bhd_util.c: Parse and Hex. strtok and strtoul,
--   which the C standard describes, are functions on lists of character codes in Libc.
-- * bhd_util.c, the maps of names: KvMap (the searches) and Proto (the maps and the numbers of
--   bhd_proto.h). The numbers of the host's macros are the parameter HostConsts.
-- * bhd_util.c, bhd_next_evt_seq: Seq, with the 32-bit counter as explicit state.
-- * bhd_gatts.c, the registry of services: Gatts. The static tables and their counts are one record;
--   a pointer into a table is an index, and a failed `assert` is `none`. Gatts/Access has the status
--   that a client gives to a waiting access; a run interleaves the pend and the
--   reset of the access with the answers of the client.
-- * bhd_proto.c, bhd_req_dec: Req. Run has the header and bhd_req_dec, Dispatch the three tables,
--   Gap, Gatt and AdvFields the handlers. A handler ends with an error, in the form in which it
--   writes it to the response, or with the function that it calls and the request it passes
--   (Types). Sizes that the host's macros give are
--   the parameter HostSizes.
-- * main.c, the messages on the socket: Framing has the reader (blehostd_enqueue_one and
--   blehostd_socket_readable), Framing/Send the sender (blehostd_enqueue_rsp and
--   blehostd_process_rsp_mq), and Framing/Serve passes the queued requests to bhd_req_dec and runs their calls. Mbufs,
--   queues and the socket are the parameter Os, a record of Mynewt's functions, with their
--   documented behaviour in IsLawful; Os/Plain is an instance on lists. Framing/Stream says what a
--   stream of packets is. The loops run on fuel: the theorems say how much is enough. A read through
--   NULL and a failed assertion are values (Ran).
-- * bhd_proto.c and bhd_util.c, the encoders: Enc has the values and the header, Enc/Rsp the
--   responses (Types their structures, Status those with a status only), Enc/Evt the events,
--   Enc/Evt/Scan advertisements, Enc/Send bhd_rsp_enc, bhd_evt_enc and the sending. They build a
--   tree with the functions of cJSON in the record Writer; IsFaithful is what the documentation says
--   of them, and Writer/Plain is an instance. The union of a response or an event is a data type; an
--   encoder that reads another member than the one written gives `garbled`, but for the status,
--   which all members have first. The optional counter of frames (BLEHOSTD_FRAME_COUNTER) is left
--   out.
-- * bhd_gattc.c, the GATT client: Gattc has the calls of the host and the callbacks, with the heap
--   of the blocks that carry a request's sequence number, Gattc/Runs the interleavings of
--   discoveries, as the host's documentation allows them. The host's functions are the parameter
--   GattHost.
-- * bhd_gap.c, bhd_id.c and bhd_sm.c: Gap has bhd_gap_event and the events that it sends, Gap/Calls
--   the calls of the host and the other senders of bhd_util.c. The host's functions are the
--   parameters GapHost and CallHost, and what it reports is the data type GapEvent.
-- * bhd_gatts.c, what the registry is used for: Gatts/Commit has bhd_gatts_commit_svcs and
--   bhd_gatts_find_chr, Gatts/Commit/Layout says how the tables describe a list of services, and
--   Gatts/Access/Callback has bhd_gatts_access. The host and calloc are the parameters GattsHost and
--   AccessHost.
-- * bhd_gap.c, bhd_gap_adv_fields: Gap/Fields, with the host in FieldsHost.
-- * The composition: Daemon runs the call that bhd_req_dec makes on the state of bhd_gatts.c and
--   bhd_gattc.c and gives the response that is left, with all hosts in the parameter Hosts;
--   undefined behaviour on the way, or a failed `assert`, is `lost`.
--
-- A text is the list of its character codes without the terminating NUL. Loops are structural
-- recursion over the list that the code walks, but for those of main.c; `reverse_rounds` counts the
-- `len / 2` rounds of its loop. Reads and writes outside a block are values (`overread`,
-- `undefined`) where the code does not exclude them.
--
-- Not modelled: the BLE host itself, cJSON, the code behind sockets and mbufs, tasks and logging,
-- which are outside the repository or pure input and output; the start of main.c; the freeing of the
-- blocks of a decoded request (bhd_destroy_svc) and of a response; an
-- answer to an access between the reset of the status and the copy of the value.
pub mod Prelude
pub mod Status
pub mod Libc
pub mod Os
pub mod Framing
pub mod Writer
pub mod Daemon
pub mod Enc
pub mod Parse
pub mod Hex
pub mod KvMap
pub mod Proto
pub mod Seq
pub mod Cjson
pub mod Json
pub mod Uuid
pub mod JsonArr
pub mod Svc
pub mod Gatts
pub mod Req
pub mod Gattc
pub mod Gap
pub mod Tests
