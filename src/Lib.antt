-- ===== src/Lib.antt =====
-- librle, a C library for Return Link Encapsulation (RLE, ETSI EN 301 545-2), as far as its core
-- goes. A transmitter takes SDUs and makes PPDUs of them; PPDUs are packed into FPDUs; a receiver
-- takes FPDUs and gives the SDUs back.
--
-- The parts and their files (paths from the root of the repository):
--   Constants, Config, Ptype: include/rle.h, src/rle_conf.c, src/rle_header_proto_type_field.c.
--   Header: the bit-fields of src/header.h, as records and as bytes; Header/Wire compares them with
--   the structures of a big-endian target.
--   Ctx: the counters and the map of free contexts of src/rle_ctx.h and src/rle_ctx.c.
--   FragBuf: src/fragmentation_buffer.h and .c; FragBuf/Wf orders its pointers.
--   Crc, Trailer: src/crc.c and src/trailer.c; Crc/Serial is about the CRC without its table.
--   Alpdu: push_alpdu_hdr of src/header.c and ptype_is_omissible of src/rle_conf.c; Alpdu/Layout
--   says on lists of bytes what header an SDU gets, Alpdu/Push relates the two.
--   Ppdu: push_ppdu_hdr of src/header.c; Ppdu/Flow says on lists of bytes how an ALPDU is cut into
--   PPDUs, Ppdu/Refine relates the two.
--   Transmitter: rle_encapsulate (src/encap.c), rle_fragment (src/fragmentation.c) and
--   src/rle_transmitter.c; Transmitter/Starting and Transmitter/Fragments carry the flow through.
--   RasmBuf, Extract, Receiver, Reassembly, Decap: src/reassembly_buffer.h and .c, the extraction
--   functions of src/header.c, src/rle_receiver.c, src/reassembly.c and src/deencap.c.
--   Extract/Layout relates what the extraction functions find to Alpdu/Layout.
--   Link: the sender and the receiver together. Link/Step and Link/Follow say that the receiver
--   follows a flow PPDU by PPDU, Link/Others that contexts do not disturb each other, Link/Exchange
--   is the relation of a whole exchange, Link/Delivery and Link/Safety are about such exchanges,
--   Link/Made about those of a transmitter and a receiver that are newly made. Link/Connected and
--   Link/Advance are about several SDUs on their way at once, Link/Fpdus and Link/Packed about the
--   FPDUs that carry them, Link/Contextless about rle_encap_contextless and rle_frag_contextless.
--   Reassembly/Ending is about the END PPDU of any sender, right or wrong.
--   Stats: the statistics of src/rle_transmitter.c and src/rle_receiver.c.
--   Alloc: the _new, _init and _destroy functions of src/rle_transmitter.c, src/rle_receiver.c,
--   src/rle_ctx.c and the two buffers. `malloc` is a parameter that says which requests it grants.
--   Pack: src/pack.c; Pack/Filled and Pack/Calls say what an FPDU holds.
--   FragBuf/Dumps, RasmBuf/Dumps: what the dump functions of the two buffers return.
--   Prelude: byte arrays, faults, machine integers and list lemmas that the parts share.
--   Tests: concrete transmitters, receivers and SDUs.
-- Operations carry the names of the C functions, without the prefixes rle_ and frag_buf_ where
-- nothing else has that name.
--
-- How the code is read. The target is little-endian with 64 bits. An operation takes the state
-- and returns the state that it leaves. A result of type Option is `none` where an `assert` of the
-- source fails or an access leaves its array. A pointer into a buffer is an offset; a pointer that
-- may be NULL is an Option or a flag. `size_t` arithmetic wraps at 2 ^ 64 where the source can
-- reach that; counters wrap too. The buffer of a context stands beside the contexts, since no
-- other pointer reaches it. Bit masks are remainders, and bit-fields side by side are sums. An SDU
-- that is handed out is a list of bytes; what a refused END PPDU leaves in the caller's slot is
-- not modelled.
--
-- Fuel: only the loop of rle_decapsulate has it, one more than the bytes of the FPDU. Each round
-- reads a PPDU of two bytes or more, so that is enough.
--
-- Not modelled: what the log and dump functions print, the big-endian branches of src/header.h but
-- for the layout of the three PPDU headers, the kernel module under linux/ and the test programs.
pub mod Prelude
pub mod Constants
pub mod Config
pub mod Ptype
pub mod Header
pub mod Ctx
pub mod FragBuf
pub mod Crc
pub mod Trailer
pub mod Alpdu
pub mod Ppdu
pub mod Transmitter
pub mod RasmBuf
pub mod Extract
pub mod Receiver
pub mod Reassembly
pub mod Decap
pub mod Pack
pub mod Stats
pub mod Alloc
pub mod Link
mod Tests
