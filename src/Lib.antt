-- ===== src/Lib.antt =====
-- t_cose signs and verifies COSE_Sign1 messages (RFC 8152). This library models it over any CBOR
-- library, any byte buffer library and any cryptographic library, which the repository does not contain.
--
-- The parts, and where they are modelled:
--
-- - src/t_cose_sign1_verify.c and inc/t_cose/t_cose_sign1_verify.h: Verify. Verify.Context is
--   `struct t_cose_sign1_verify_ctx` with its setters, Verify.Tags is process_tags(), Verify.Signature has the
--   three sign1_verify functions, and Verify.Message is t_cose_sign1_verify_internal() and the public
--   functions that call it. A function that changes the context returns it beside the result.
-- - src/t_cose_sign1_sign.c and inc/t_cose/t_cose_sign1_sign.h: Sign. Sign.Context is
--   `struct t_cose_sign1_sign_ctx` with its setters, Sign.Parameters encodes the header parameters,
--   Sign.Signature has the three sign1_sign functions, and Sign.Message is
--   t_cose_sign1_encode_signature_aad_internal(), t_cose_sign1_sign_aad_internal() and their callers.
--   The context of the encoder is the list of the calls made to it.
-- - src/t_cose_parameters.c and src/t_cose_parameters.h: Labels is `struct t_cose_label_list` and the
--   functions on it, where a label 0 or a text with a null pointer ends an array; Parameters is
--   parse_cose_header_parameters() and what it calls.
-- - src/t_cose_util.c: Algorithm has the tables of algorithms, Tbs has create_tbs() and
--   create_tbs_hash(), ShortCircuit has the key identifier of short-circuit signatures.
-- - src/t_cose_short_circuit.c: ShortCircuit.
-- - crypto_adapters/b_con_hash/sha256.c: Sha256, with FIPS 180-4 stated apart from it in Sha256.Fips, and
--   crypto_adapters/t_cose_test_crypto.c: TestCrypto, which is a value of that interface.
-- - crypto_adapters/t_cose_psa_crypto.c: Psa, another value of it, over any PSA library: the record Psa has
--   the functions and macros of <psa/crypto.h> that the adapter uses.
-- - crypto_adapters/t_cose_openssl_crypto.c: OpenSsl, a third one, over any OpenSSL library: the records
--   OpenSsl and OpenSsl.Evp.Evp. OpenSsl has the conversions of ECDSA signatures between DER and COSE,
--   the sizes of signatures and the checks of a key, OpenSsl.Pkey signs and verifies a hash, and
--   OpenSsl.Digest has the hashes, EdDSA and the adapter.
-- - src/t_cose_crypto.h: Crypto is the interface as a record of operations; its inline functions on
--   lists of algorithms are in Algorithm.
-- - Roundtrip has the agreement of signing and verifying: Roundtrip.Sent states how QCBOR's decoder reads
--   what its encoder was given, Roundtrip.Message joins a whole call of the signer to one of the
--   verifier, and Roundtrip.Sizing is about the auxiliary buffer of EdDSA. Verify.Reuse has the
--   sequences of calls with one verification context.
-- - examples/t_cose_basic_example_psa.c and examples/t_cose_basic_example_ossl.c: Programs, with the functions
--   that make their keys in Programs.Keys. The programs print and free; the model has how they end. What
--   QCBOR gives the signer of the third program is the records EncodesMessage and SameSizes.
-- - Common has the shared types: error codes and
--   results (Common.Outcome), integers, lists, buffers (Common.Buffers), and the rules for
--   calls that leave no array (Common.Safety). Examples has small instances of the interfaces.
--
-- A result is `ok`, `err` with a code of `enum t_cose_err_t`, or `fault` for an access outside of an array,
-- which C leaves undefined, or in the test adapter for a hash whose update has not returned. The
-- `goto Done` of the code is the bind of this type, or `or_done` where a context has changed. Buffers
-- are a NULL pointer with a length or the bytes.
--
-- QCBOR is two records, Qcbor.Decoder.Decoder and Qcbor.Encoder.Encoder, of operations on a context; what
-- its documentation promises is the records CallsBack and EncodesCbor, hypotheses of the theorems
-- that use them. That the decoder gives back what the encoder was given is the record ReadsMessage,
-- with ReadsMap for each of the two maps of header parameters. The functions of UsefulBuf are the
-- record UsefulBuf with their documented laws. What a cryptographic library promises is
-- HashesStream or, for an adapter that takes only so many bytes at a time, HashesChunks, and
-- StaysInside and Accepts, and what PSA promises is EncodesAlgorithms and Psa.Keys.KeyPair. What OpenSSL promises is SizesNumbers,
-- TakesNumbers, Digests, OpenSsl.Pairs.KeyPair and EddsaPair.
--
-- Fuel: the loop of process_tags() has 6, since its array has 4 entries and it starts at index 0 or 1; the
-- loop of decode_critical_parameter() has 21, since each of the two arrays takes 10 labels; the loop
-- of short_circuit_sign() has the size of the signature, since each round copies a byte at least.
-- Without enough fuel they would fault, and the theorems on them exclude that. The loop of
-- sha256_update() has one test more than there are bytes; its counter has 32 bits, so for 2^32 bytes or
-- more no fuel is enough, which is `none`, a call that does not return.
--
-- Sizes are those of a machine with 64-bit sizes. The preprocessor options that leave parts out
-- (T_COSE_DISABLE_EDDSA and the like) are off. Not modelled: the stack, the bytes that a cryptographic
-- library leaves in a buffer when it fails, the release of memory by the adapters and the programs,
-- what programs print but the payload, and tests.
pub mod Common
pub mod Algorithm
pub mod Qcbor
pub mod Labels
pub mod Parameters
pub mod Crypto
pub mod Tbs
pub mod ShortCircuit
pub mod Verify
pub mod Sign
pub mod Roundtrip
pub mod Sha256
pub mod TestCrypto
pub mod Psa
pub mod OpenSsl
pub mod Programs
pub mod Examples
