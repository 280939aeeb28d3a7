-- ===== src/Lib.antt =====
-- A local agent (internal/agent) sends a user's request to a language model and runs the tools that
-- the model asks for on MCP servers: that of the core utilities (internal/mcpserver, with the
-- utilities of coreutils) and that of the web (webutils). This library models the logic of these
-- parts, with input and output, encodings and the machine's floats as parameters.
--
-- The files, and the code that they are about:
--   Prelude, Outcome, Exec, Floats: what the others share: native numbers, lists, byte strings,
--     integers; Go's results with an error or a panic; state with errors; float64 as a parameter.
--   Strings (with Laws, Numbers, Paths): the functions of Go's strings, strconv and path/filepath that
--     the code calls, on lists of bytes.
--   Coreutils/Lines: coreutils/coreutils.go. split_lines is SplitLines, and so on.
--   Coreutils/Text, Runes, Sorting: coreutils/text.go: Head, Tail, WordCount, Uniq, Cut, Paste; Tr on
--     decoded UTF-8; Sort over any stable sort.
--   Coreutils/Names: coreutils/path.go.
--   Coreutils/Search: coreutils/search.go, Grep over any matcher of regular expressions.
--   Coreutils/Command: coreutils/command.go: the registry, the argument checks and the runs, where an
--     index out of range is a panic.
--   Json, Schema: decoded JSON, and internal/jsonschema/jsonschema.go on it.
--   Protocol: internal/mcpproto/mcpproto.go.
--   Agent/Messages, Agent/Model: internal/llm/llm.go: its types, Ping and Complete.
--   Agent/Context: internal/agent/context.go. Agent/Profiles: internal/agent/profiles.go.
--   Agent/Payload, Agent/ToolCall: internal/agent/toolcall.go; a call is checked against the tools
--     that are exposed, and sent with Tools.call.
--   Agent/Policy, Agent/Loop: internal/agent/agent.go: discovery, exposure, the loop. A session's
--     state is its counter of calls, and logs of what was sent, asked and printed.
--   Server, Server/Calls, Server/Dispatch: internal/mcpserver/server.go: the run of a tool, whose
--     handler changes a World, and the answers to the lines of a client, with the bound on a line.
--   Server/Workspace: internal/mcpserver/workspace.go over what the file system answers.
--   Server/Machine: what the handlers work on: a file system that answers calls, and a log of those
--     that may change a file, whether they succeed or not.
--   Server/Handlers, Server/Table: internal/mcpserver/tools.go: run_touch is runTouch, and so on;
--     definitions is the table.
--   Server/Opening: New of internal/mcpserver/server.go, over canonicalWorkspace of workspace.go.
--   Server/Confinement: what the handlers may do, and that they do no more.
--   Server/Http: internal/mcpserver/http.go, over the dispatch of Server/Dispatch.
--   Client: internal/mcpclient/client.go. What the client's select picks is a list of events, which
--     the theorems quantify over; a call that finds no more events is waiting.
--   Agent/Configuration: internal/agent/agent.go: Config and Validate.
--   Agent/Startup: internal/agent/agent.go: Run and startWebMCPServer, with each start and each Close
--     of a process, which talk to the servers with Client and run the session of Agent/Loop.
--   Webutils/Policy: webutils/policy.go over what the resolver answers.
--   Webutils/Search: webutils/browser.go: the limits and the links of a search.
--   Webutils/Extraction: webutils/browser.go: which markdown of a page is used, over what the parser
--     and the converters give.
--   Webutils/Schemas, Webutils/Server: webutils/server.go: callTool over any browser.
--   Examples: the theorems at concrete inputs, and tests.
--
-- Bounds and fuel: the loop over rounds counts the rounds that are left, from max_model_rounds. The
-- loop that drops exchanges (Agent/Context) has one round more than there are messages, and each
-- round drops one; Uniq's loop has one round per line. ListTools counts the pages that are left, from
-- ten, as the code does. Numbers are unbounded: the code only counts
-- lines, bytes and calls that fit its machine integers; atoi cuts at the bounds of 64 bits.
--
-- A map of Go is the list of its entries, in the order in which `range` meets them, so that what
-- holds of every list holds of every order. Logging, timing and failures of writers are left out.
--
-- What is said of paths is said of the texts that are given to the file system. All answers within
-- a call come from the world as it is then; another process may change it in between, and a symbolic
-- link in the last place of a path that does not resolve is followed by the call that creates a file.
--
-- Not modelled: the driving of Chromium (Browse and Search of webutils/browser.go) and the cleaning
-- of its pages, the loop around the web server's callTool, which is that of the other server, the
-- start of processes and listeners and the flags of the commands under cmd, which are input and
-- output; Base64 and Sha256Sum, which only call their libraries.
pub mod Prelude
pub mod Outcome
pub mod Exec
pub mod Floats
pub mod Strings
pub mod Coreutils
pub mod Json
pub mod Protocol
pub mod Schema
pub mod Agent
pub mod Server
pub mod Client
pub mod Webutils
pub mod Examples
