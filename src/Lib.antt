-- ===== src/Lib.antt =====
-- A model of the TypeScript client of Hyperledger Fabric Gateway (node/src in the repository), of the
-- driver of its end-to-end tests (scenario/node/src), and of the two applications that show its use
-- (samples/node/src, hsm-samples/node/src).
--
-- The program. A client application connects to a gateway peer over gRPC (`connect`), takes a
-- network (a channel) and a contract of it, and evaluates or submits transactions. Submitting goes
-- through four objects: a proposal, which is endorsed; the transaction made of the endorsement,
-- which is submitted; its commit, whose status is asked for; and the result. Each of proposals,
-- transactions, commits and chaincode events requests is signed when it is first sent, unless it
-- has a signature already, and can be rebuilt from its bytes with a signature made elsewhere. The
-- driver runs scenarios, step by step, on a network that it starts with commands; the applications
-- connect, run examples, and close what they have opened.
--
-- Files, with the code that each models:
--   Base: names of the libraries, Boolean tests on numbers, lists.
--   Effect: results, and steps that change a state and may throw; Effect/Made and Effect/Keeps are
--     rules for the service methods that a step calls, and for what it keeps of its object,
--     Effect/Whole for what it keeps, ensures or leads to of a whole state.
--   Js: values, byte strings, plain objects, numbers, texts and hexadecimal texts of the language.
--   Errors: what is thrown (node/src/gatewayerror.ts, endorseerror.ts, submiterror.ts,
--     commitstatuserror.ts, commiterror.ts), call options, and the history of calls.
--   Protos, Platform: the parameters of the model, below.
--   GatewayErrors: `newGatewayError` (node/src/gatewayerror.ts).
--   Status: status codes and commit errors (node/src/status.ts, commiterror.ts).
--   Signing: `SigningIdentity` (node/src/signingidentity.ts); Signing/Signable is the interface of
--     the classes that sign on demand, with the `#sign` that each of them repeats, Signing/Sent says
--     how their methods end that sign and then make a call, and Signing/Concurrent has the schedules
--     of calls on one object.
--   Client: the gRPC calls (node/src/client.ts).
--   TransactionParser, TransactionContext, ProposalBuilder, Proposal, Transaction, Commit, Contract,
--     Network, Gateway: the files of these names under node/src; Commit has the class of
--     submittedtransaction.ts too.
--   Events: chaincodeevent.ts; Events/Request: chaincodeeventsbuilder.ts and
--     chaincodeeventsrequest.ts; Events/Closing is about closing a stream.
--   Identity: Identity/Hsm is identity/hsmsigner.ts, over the PKCS#11 library in Identity/Pkcs11, and
--     Identity/Signers is identity/signers.ts.
--   Scenario: the driver. Scenario/Invocation is transactioninvocation.ts, Scenario/Utils utils.ts,
--     Scenario/Fabric fabric.ts (with the channels and chaincodes in its children of these names),
--     Scenario/Context gatewaycontext.ts and eventlistener.ts, Scenario/World, Scenario/Fixtures and
--     Scenario/HsmUsers customworld.ts, Scenario/Ski fabricski.ts, Scenario/Steps the steps of
--     scenario_steps.ts, with Scenario/Details for the longest of them, and Scenario/Running its hooks
--     and the runs of scenarios; all under scenario/node/src.
--   Samples: the applications. Samples/Runtime has what both of them do, Samples/Basic is
--     samples/node/src/sample.ts, with its examples in Examples and Listening below it, and
--     Samples/Hsm hsm-samples/node/src/hsm-sample.ts. Samples/Made and Samples/Ending are rules for
--     the service methods and for the sessions of a program.
--   Tests: concrete parameters, runs, and the theorems at concrete inputs.
--
-- How state is modelled. An object is a record of its private fields; a method is a step on the
-- object and on the history of the calls that the program has made so far to code outside it. An
-- object that holds two references to one message, as a proposal does, holds two copies, and its
-- setter writes both. A private client field is an argument of the methods. A rejected promise is a
-- throw, and what was changed before it stays changed. A class of errors is a constructor of
-- `Thrown`; its constructor `uncaught` is an exception that escapes from a callback run by gRPC,
-- which leaves the promise pending. Calls of one object that overlap are a step relation: a call
-- waits for its signer between the test of the signature and the writing of it, and any call may move
-- meanwhile. The driver's state is a record and a log of the commands that it has spawned; contexts
-- of gateways stand in a store, since the world refers to one of them in two ways. An application has
-- the lines that it has printed, the connections that it has closed and the calls of the PKCS#11
-- library; it stops by an exception, or by waiting for a promise that nothing settles, and then what
-- stands in a `finally` is not run.
--
-- Parameters. The message classes are generated from a git submodule, so that `Protos` holds a
-- serializer and a deserializer for each, and the values of the enumerations that the program
-- names; a message is the record of what its getters return. `RoundTrips` is the hypothesis that a
-- message is read back as it was serialised. gRPC, signers, suppliers of options, random bytes and
-- the clock are functions of the history, so that they may answer differently each time. Hashes are
-- functions of the message. The PKCS#11 library is a function of the calls made to it; which calls it
-- has had when gRPC asks a signer is a parameter, `calls_of`.
--
-- Bounds. `Number(b)` of a `bigint` rounds to 53 bits, in at most 971 doublings of the unit, which
-- is enough for every finite number. `number_to_string` has fuel for as many digits as the number
-- itself. The generator of events reads responses with fuel, and needs one more than there are
-- responses.
--
-- Not modelled: calls that gRPC never answers; strings with lone surrogates, property names such as
-- `__proto__`, and the order of integer property names; what leaving a loop over events early does
-- to their generator; a signer whose promise never settles; arguments outside their declared types,
-- but for a missing client or identity. Of the driver: the console, how Cucumber matches a line to a
-- step, its timeouts, and a session of a security module that cannot be closed. Regular expressions,
-- files, keys and the output of commands are parameters there. The clients in Go and Java are other
-- programs.
pub mod Base
pub mod Effect
pub mod Js
pub mod Errors
pub mod Protos
pub mod Platform
pub mod Status
pub mod GatewayErrors
pub mod Signing
pub mod Client
pub mod TransactionParser
pub mod Commit
pub mod Transaction
pub mod Proposal
pub mod TransactionContext
pub mod ProposalBuilder
pub mod Contract
pub mod Events
pub mod Network
pub mod Gateway
pub mod Identity
pub mod Scenario
pub mod Samples
pub mod Tests
