-- ===== src/Lib.antt =====
-- mc-gatekeeper: the browser application that players and server admins use to apply for, decide
-- on and manage whitelist requests (app/src), and the server's handlers, worker, statistics and
-- event stream (server).
--
-- A page is a mounted React component. `Page` (Page.antt) holds its state and what the browser
-- keeps for it: promises in flight and settled, timers, open captcha challenges, alerts, pushed
-- paths and the stored token. A handler or a promise callback of the source is a function from
-- pages to pages; a component's `step` takes one event (the user sets off a handler that the
-- rendered tree has in reach, a promise in flight settles with any outcome, a timer fires), and
-- `run` a list of events, so a theorem over all lists holds for every interleaving. The application
-- form, the action page, the status page and the login page take any JSON for an answer, well formed
-- or not; the list of requests on the landing page may be missing or null, and is well formed where it
-- is there, as the statistics on the metrics page are. A reload of the action page mounts it again,
-- without the promises of the old one.
--
--   Prelude         shared names, Boolean tests, lists
--   Js, Js/Text     JavaScript values, property access, truth, `trim`, `parseInt`, templates
--   Page            the page of a component
--   Jsx             element trees, and which handlers in one can be reached
--   Services        app/src/service: the request of each service method
--   Application     app/src/components/Application.js
--   AdminAction     app/src/components/AdminAction.js
--   CheckStatus     app/src/components/CheckStatus.js
--   Login           app/src/components/Login.js
--   Dashboard       app/src/components/Dashboard/Dashboard.js, and what it mounts:
--     Landing       landing/landing.js with landing/Table.js
--     Chart         landing/Chart.js and landing/Title.js
--     Metrics       metrics/metrics.js with the data of its cards and graphs
--   App             app/src/App.js: the routes
--   Types           server/types/types.go
--   Result          an error, a panic or a value of a Go function
--   Tokens          server/utils/encrypt.go: the tokens in the links of the mails
--   Cache           server/cache/cache.go: the statistics that the metrics page shows
--   Rcon            server/rcon/client.go: the packets to the game server, and the commands
--   Server          server/server: the handlers of requests and links, on server/db/db.go, the
--                   sign-in (Auth) and the proxies to Mojang (Minecraft) and Google (Recaptcha)
--   Sse             server/server/sse/sse.go: the broker of the event stream
--   Worker          server/worker/worker.go: what a published request leads to
--   Contract        where the parts meet: the link of an op from the mail to the decision (Links,
--                   Decide), the link of a player from the mail to the status page (Status), the
--                   check of a username from Mojang's replies to the form (Skin), the captcha
--                   (Captcha), a new request (Create), and a login from the credentials to the
--                   dashboard (SignIn)
--
-- In each component the root file has the state and the handlers with the source's names in snake
-- case, Tests has runs and instances, and where the component is large View has `render` and Step
-- the events; the other children are named for what they prove. The pages meet in the browser: the
-- token that Login stores is the one that Landing reads.
--
-- Parameters: `t` is i18next's translation, `from_now` moment's rendering of a timestamp,
-- `api_host` the configured host; `format`, `date_of` and `day` are moment's dates, `group_by`
-- lodash's `groupBy`, `matches` react-router's test of a path, and `F` the type of a time in the
-- statistics with what the metrics page asks of it. The server's database is a `Collection` with
-- the laws of Server/Laws, `decrypt` its decryption of tokens, `object_id` its reading of ids; in
-- Contract `decrypt` is that of Tokens, whose ciphers and encodings are a `Crypto` with the laws
-- of Tokens/Laws. `Mojang` has the replies of Mojang and the decoders of their bodies, a
-- `Connection` of Rcon/Command what the game server sends, `sign` and `accepts` of Contract/SignIn
-- are the signing and the checking of a JWT. `Settles` in Contract says how a promise of axios
-- settles for a response of the server.
-- Numbers in JSON are integers and NaN. Recursion is structural throughout, but for `decimal`, whose
-- fuel is one more than the number, which has fewer digits than that, and for the attempts of
-- `UpdateRealTimeStats` and `SendCommand`, whose numbers are those of the source.
--
-- A request goes from Application through Server to the queue, from there through Worker to the
-- game server (Rcon), the mails and the statistics (Cache), and Sse sends these to the metrics page.
--
-- Not modelled: connections and their retries but for those of the statistics and of the commands,
-- the server's routes and its middleware for tokens, style sheets and theme, what the chart
-- libraries draw, service worker registration, i18n set-up.
pub mod Prelude
pub mod Js
pub mod Page
pub mod Jsx
pub mod Services
pub mod Application
pub mod AdminAction
pub mod CheckStatus
pub mod Dashboard
pub mod Login
pub mod App
pub mod Types
pub mod Result
pub mod Tokens
pub mod Cache
pub mod Rcon
pub mod Server
pub mod Sse
pub mod Worker
pub mod Contract
