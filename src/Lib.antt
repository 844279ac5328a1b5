-- ===== src/Lib.antt =====
-- Verification of the MAC layer of spectracuda (spectracuda/mac), of the framing beneath it
-- (spectracuda/framing: frame headers and the packetizer, with spectracuda/fec's CRC and FEC wrapper
-- and spectracuda/interleaver), and of the controller that adapts a link's modulation to its reports
-- (examples/drone_tui/adaptive_mcs.py).
--
-- An SDU is a row of bits. `Segmenter` cuts it into segments that fit a frame of the physical layer,
-- UM and AM put a header with a sequence number in front of each, and the peer's `ReassemblyBuffer`
-- joins the segments in the order of their numbers. AM keeps what it sent until a STATUS PDU
-- acknowledges it. Two ends first agree on their parameters by a handshake; every frame that arrives
-- feeds the counters of the link, which are reported to the peer. On its way into a frame a PDU goes
-- through the packetizer: a CRC key is appended, an inner code, an interleaver and an outer code
-- follow, and the receiver undoes them in reverse. The MAC asks the packetizer how long a frame
-- becomes when it looks for its segment size.
--
--   Mac/Pdu          mac/pdu.py: headers and the arithmetic of sequence numbers
--   Mac/Segmenter    mac/reassembly.py, class Segmenter
--   Mac/Reassembly   mac/reassembly.py, class ReassemblyBuffer
--   Mac/Tm, Um, Am   mac/tm.py, mac/um.py, mac/am.py: the three modes
--   Mac/Bind         mac/bind.py: the handshake's messages and the acceptor's decision
--   Mac/Capacity     mac/capacity.py: how large a segment a frame holds
--   Mac/Quality      mac/quality.py: counters and reports
--   Mac/Radio        what the MAC uses of the OFDM object of pipeline/ofdm.py, an interface
--   Mac/Entity       the mode's entity behind a Mac, and its calls
--   Mac/Unit         mac/mac.py, class Mac: construction, frames (Iq, Batch), control messages (Control)
--   Mac/Session      mac/session.py, class MacLink
--   Mac/Examples, Mac/Runs and each other file Examples   runs at concrete inputs
--   Framing/Schemes, Framing/Header   framing/header.py
--   Framing/Packetizer   framing/packetizer.py; its child Capacity joins it to Mac/Capacity
--   Fec/Crc          fec/crc.py, and the compiled kernel of fec/_numba_crc.py
--   Fec/Convolutional   fec/viterbi.py and its kernel of fec/_numba_conv_encode.py; its child Viterbi
--                    the decoder, FreeDistance how far apart codes are, Backends the choice of a library
--   Fec/ReedSolomon  fec/reed_solomon.py; its child Decoder finds and corrects errors, Field has the
--                    laws of GF(256), Parity the roots of what the encoder makes, Syndromes, OneError
--                    and Place what the decoder finds of one wrong symbol
--   Fec/Wrapper      fec/fec.py: any length of message over codes that work on blocks
--   Fec/Codes        what the FEC wrapper and the packetizer rely on of a code, an interface
--   Interleaver      interleaver/base.py; its child Schemes the permutations of block.py,
--                    permutation.py, convolutional.py and liquid.py
--   Mcs              examples/drone_tui/adaptive_mcs.py, class McsController
--   Numpy            numpy's batches, packbits, unpackbits and argsort, with the laws that numpy documents
--   Common           what the modules share: tests, lists, bits, dicts, exceptions, methods
--
-- A call that may raise returns an `Outcome`; a method that changes its object returns the object
-- beside it, as it is when an exception leaves it. The source's guards are kept in their order.
-- Numbers that Python computes without a bound are natural numbers, and a modulus is written out;
-- where the source subtracts below 0 the definition says what becomes of it. Arrays of bits are lists
-- of numbers; a batch is a list of rows with their width. A CRC register is a number with its masks
-- written out. Each loop that is no walk over a list runs on fuel and ends in `loops` without it: the
-- segment loop has a round for each bit of the SDU, the delivery loop one for each pending segment,
-- the bisection one for each bit of a frame, and the search over blocks eight times the sizes up to
-- the limit; each is shown to be enough. The read-out of the convolutional interleaver has a round for
-- each unit, and each step of the walk of the liquid interleaver two times the cells of its grid; for
-- the liquid scheme it is not shown that construction returns. The loops of the Reed-Solomon code have
-- as many rounds as in the source.
--
-- Not modelled: the signal processing (pipeline, ofdm, modem, sync, cfo, channel, equalizer, sim),
-- which works on floating-point arrays; the LDPC codes (fec/ldpc.py), which stand behind the
-- interface of Fec/Codes; the native libraries, whose encoders and decoders are parameters of
-- Fec/Convolutional and Fec/ReedSolomon (what is said of decoding below is said of the library's own
-- array code, which runs where no native library is chosen); the cache that the packetizer keeps of
-- its interleavers, which are functions of their size; and the other example programs. The threads
-- of `receive_iq_batch` share no object, so they run one after the other here. A path metric of the
-- Viterbi decoder counts wrong bits in float32: it is a natural number or infinity, and the sum of
-- two is a parameter, exact up to 2 ** 24. Other floating-point numbers are a type with the
-- operations that the source uses; so are the square root and the seeded generator that the
-- interleavers take from numpy.
pub mod Common
pub mod Fec
pub mod Framing
pub mod Interleaver
pub mod Mac
pub mod Mcs
pub mod Numpy
