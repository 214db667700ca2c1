-- ===== src/Lib.antt =====
-- nproto: rpc over nats and messages over nats-streaming, in Go.
--
-- The program offers remote calls (package rpc) and message passing (package msg) as small
-- interfaces. Package natsrpc implements rpc over nats, package stanmsg implements msg over
-- nats-streaming; package binlogmsg stores messages in MySQL tables and pipes them on; package
-- tracing wraps clients, servers, publishers and subscribers. All of them carry meta data (package md)
-- beside an encoded value (package enc).
--
--   Prelude     tests, lists, byte strings, maps and signed integers that the modules share;
--   Go          interface values with their dynamic types, errors, results, package fmt;
--   Md          md/md.go, md/meta_data.go, pb/md/md.go, tracing/md.go: MD by its three
--               implementations (MetaData, nppbmd.MetaData, tracingMD), its methods, the two
--               conversions, and the keys of a context. Keys calls a callback on a state;
--   Enc         enc/rawenc/rawenc.go, enc/pjenc/pjenc.go: EncodeData and DecodeData, each with what
--               it leaves in its targets;
--   Names       the regular expressions of rpc/common.go, msg/common.go, natsrpc/options.go and
--               stanmsg/options.go, as scans of bytes;
--   Middleware  the loop in the WithMWs types of rpc and msg, by its index as in the source;
--   Options     the loop over options, task runners; Natsrpc.Options, Stanmsg.Options and
--               Binlogmsg.Options are the option functions of the three options.go with the
--               constructors that apply them;
--   Rpc         rpc/*.go: specs, assertions, error codes, clients and servers with middlewares;
--   Msg         msg/*.go: the same for publishers and subscribers, and Publish over PublishAsync;
--   Natsrpc     natsrpc/utils.go and errors.go. Natsrpc.Server is natsrpc/server.go: registHandler
--               and Close on the state of a ServerConn, msgHandler as a function from a message to
--               the reply, and NewServer (Natsrpc.Server.Serving), whose server is an instance
--               of Rpc.Registry; Natsrpc.Client is natsrpc/client.go; Natsrpc.EndToEnd joins them,
--               and Natsrpc.Defaults is natsrpc/pj.go;
--   Stanmsg     stanmsg/durconn.go: a DurConn with its goroutines as a step relation, one step for
--               each section between two locks, so that Reach holds every interleaving.
--               Stanmsg.Retry is the loop of subscribeAll for given answers, and Stanmsg.Retry.Steps
--               takes its runs apart into those steps; Stanmsg.Messages is
--               publishAsync and the message handler, Stanmsg.Defaults is stanmsg/pj.go;
--   Sql         database/sql as the program uses it: functions of MySQL's answers that append their
--               calls to a log, transactions with the deferred rollback, and what a log makes durable;
--   Binlogmsg   binlogmsg/entry.go, binlogmsg/binlogmsg.go: the rows of msg tables, the data that
--               NewMsgPublisher stores, and flushMsgEntry. Binlogmsg.Tables is binlogmsg/sqls.go,
--               NewMsgPublisher on a database, and binlogmsg/pj.go. Binlogmsg.Pipe is the flow control
--               of MsgPipe.run (ctrlCh, entryCh, the callbacks and the post process goroutine) as a
--               step relation. Binlogmsg.Dump is the order of run's two dumps, and the loop of Run;
--               Binlogmsg.Settled puts the dumps and the flow control together;
--   Tracing     tracing/util.go, tracing/rpc, tracing/msg: span contexts in meta data and the tracing
--               middlewares, on a trace of the spans started and finished, which is part of W;
--   Stubs       cmd/protoc-gen-nproto2/gen.go: the code that its two templates generate for a service
--               (specs, Serve with its deferred deregistration, clients) and for a message;
--               Stubs.Files is genFile and main, which choose the services, messages and files;
--               Stubs.Remote and Stubs.Messages join it with natsrpc, binlogmsg and stanmsg;
--   Sendmail    examples/sendmail: Sendmail.Generated is pb.nproto.go, Sendmail.Service the service of
--               server/main.go with its statements and transactions;
--   Bench       examples/bench-natsrpc/main.go: how its goroutines fill the slice of durations;
--   Samples     concrete values for the tests.
--
-- Conventions. A string is the list of its bytes, a map an association list with one entry for a key,
-- a nil slice the empty list. The world that handlers read and change is a type W that they pass on.
-- A panic is a constructor of the result. Times are nanoseconds from an epoch long past; time.Duration
-- is an int64, with its bound written out. Loops are recursion on a list or on their index. Only
-- subscribe_all has fuel, the number of its rounds; subscribe_all_ends says how much is enough.
--
-- Parameters. Package fmt, reflection's type names and strconv are a Printer; proto, protojson and
-- encoding/json are Codecs, Wire and MsgWire; nats and the clock are a Net; the answers of
-- QueueSubscribe, Flush, Submit and stan.Connect are arguments or choices of a step; an opentracing
-- tracer is a Tracer; MySQL is a MySql, which answers each call by all the calls before it, and a
-- statement that it accepts in a transaction counts as durable once Commit returns nil; what mycanal's
-- dumps deliver is a Source; an SMTP server is a function from a mail to its answer.
--
-- Not modelled: logging, callbacks that only notify, generated protobuf code, the text that the protoc
-- plugin prints around its templates, and the main functions of the examples and the rest of the
-- benchmark, which connect the parts and read and print.
pub mod Prelude
pub mod Go
pub mod Md
pub mod Enc
pub mod Names
pub mod Middleware
pub mod Options
pub mod Rpc
pub mod Msg
pub mod Natsrpc
pub mod Stanmsg
pub mod Sql
pub mod Binlogmsg
pub mod Tracing
pub mod Stubs
pub mod Sendmail
pub mod Bench
pub mod Samples
