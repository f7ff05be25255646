-- ===== src/Lib.antt =====
-- Verification library of nero-mpc-sdk, a TypeScript SDK for wallets whose key is shared between a
-- client and a backend.
--
-- The program's core is a two-party ECDSA protocol (src/protocols/dkls). Key generation commits to
-- and reveals public shares with Schnorr proofs; the joint key is the product of the two secrets.
-- Signing agrees on a nonce in the same way and then converts products of secrets into sums: each
-- conversion (mta-protocol.ts) is a batch of 256 correlated transfers, one for each bit of the
-- multiplier, and each of these is a 1-of-2 oblivious transfer (oblivious-transfer.ts). An older
-- protocol shares keys by polynomials (src/protocols/dkg) and signs with additive shares
-- (src/protocols/signing). Around them stand the chain manager (src/chains), the manager of the
-- client's shares, the connection's state machine and the EIP-1193 provider (src/core), and the
-- transport's retries and message queue (src/transport).
--
--   Base       shared names, tests, lists, maps and `Throws`, the result of code that may throw
--   Bigint     JavaScript's BigInt: integers with truncating division, and congruence
--   Modular    `mod` in its two forms and `modInverse`
--   Hex        `toString(16).padStart(64, "0")` and BigInt of hexadecimal texts
--   Noble      the interface of @noble/curves and @noble/hashes, its laws, and a group of seven
--              elements that satisfies them
--   Dkls/Ot, Dkls/Batch, Dkls/Wire
--              src/protocols/dkls/oblivious-transfer.ts: otSenderInit is ot_sender_init, and so on
--   Dkls/Mta   src/protocols/dkls/mta-protocol.ts, its messages as texts in Dkls/Mta/Messages
--   Dkls/Keygen, Dkls/Signing
--              src/protocols/dkls/crypto.ts
--   Dkls/Client
--              src/protocols/dkls/dkls-client.ts, its signing in Dkls/Client/Sign
--   Dkg        src/protocols/dkg/polynomial.ts and the share check of commitments.ts; the rest of it in
--              Dkg/Commitments, share-exchange.ts in Dkg/Exchange, dkg-client.ts in Dkg/Client
--   Threshold  src/protocols/signing/partial-signature.ts, with its check in Threshold/Verify;
--              nonce.ts in Threshold/Nonce, signing-client.ts in Threshold/Client
--   Recovery   src/core/self-custody-recovery.ts: its blob in Recovery/Blob, its functions in
--              Recovery/Custody
--   Chains     src/chains/configs.ts and src/chains/chain-manager.ts
--   Client     src/core/connection-state.ts, src/core/client-key-manager.ts and, in
--              Client/Provider, src/core/provider.ts; in Client/Storage, src/core/secure-storage.ts
--              with the encryption of crypto-primitives.ts
--   Transport  src/transport/middleware/retry.ts and src/transport/websocket-client.ts
--
-- Functions and types keep the source's names in snake case and in camel case. A thrown error is a
-- value of `Throws` with the message of the `Error`; an exception of a library call carries the
-- call's name. A class is a record, and a method takes and returns it. What the code draws at random
-- is an argument: scalars in 1 to the order, and session identifiers. Texts and byte arrays are lists
-- of numbers.
--
-- The curve library is not part of the repository: the record `Noble` lists what the code calls,
-- and `Lawful` what it documents (a group of prime order below 2 ^ 256, `multiply` defined from 1
-- up to the order, encodings of every point but the one at infinity). HKDF and AES-GCM are the
-- record `Webcrypto` with the laws `Sealing`; scrypt, HMAC and Keccak the record `Hashing`; PBKDF2
-- a function; JSON of a share the record `ShareJson`; what the provider asks of its page the
-- record `Host`. The key manager takes the record `Storage`, which `secure_storage` fills. A
-- backend is a record of answers, such as `DkgApi` or `SigningApi`, which may be any. The methods
-- of a client that may throw are `Steps`: what ran before the exception keeps its effect. Other
-- values that the code writes with JSON.stringify and reads with JSON.parse are kept as values.
--
-- Loops are recursions on their lists or on the rounds that are left; the batch loops have 256
-- rounds, as SCALAR_BITS says, which covers every multiplier below 2 ^ 256. The loop of `modInverse`
-- and the writing of digits recurse on accessibility, so no fuel is chosen.
--
-- Not modelled: the hash of typed data, which is that of ethers, the storages of the browser, the
-- requests and handlers of the transport, account abstraction, the facade of the SDK, and the user
-- interface. Of the EIP-1193 provider, Number.parseInt of a chain's identifier and the taking
-- apart of a typed message belong to the host.
pub mod Base
pub mod Bigint
pub mod Modular
pub mod Hex
pub mod Noble
pub mod Dkls
pub mod Chains
pub mod Client
pub mod Dkg
pub mod Threshold
pub mod Transport
pub mod Recovery
