-- ===== src/Lib.antt =====
-- ExchangeWatch collects exchange rates from external services, stores the latest in Redis and the daily ones in
-- PostgreSQL, and passes changes on to browsers. This library models its core and proves theorems about it.
--
-- How the parts work together. Instances of the server elect a leader by a lock in Redis. The leader's gateway starts the
-- socket manager while the market is open; the manager drives a primary and a fallback service, and a service's socket emits
-- an event for each rate. The listener hands the rate to the rate service, which compares it with the opening rate in Redis,
-- writes it there, and publishes it where the change is large. Every instance subscribes to what is published, and passes
-- it on to the channels of server-sent events and to the notifications. Requests read the current rates and the history, and keep watchlists.
--
-- Which file models what (paths from the repository's root):
--   Base: lists, options, results and Boolean tests, for all other files. Strings: the methods of JavaScript's strings and
--     objects that the source calls.
--   Date: src/common/utils/date-util/date-util.service.ts, the market's calendar (isMarketOpen, getLastMarketDay,
--     isNewTradingDay, getDatesBetween). A Date is its milliseconds since 1970, and dayjs is the parameter Dayjs.
--   Numbers: what the source computes with JavaScript's numbers, as an interface: floating point is not modelled, so the
--     theorems hold for any arithmetic. Numbers/Unary is one instance.
--   Redis: src/infrastructure/redis/redis.service.ts (setLock, renewLock, releaseLock, getRaw) over the parameter LockStore;
--     Redis/LockManager: lock-manager.service.ts (runWithLock); Redis/Cache: hset, hmget and set over the parameter Client, and
--     Redis/Cache/Json: get, set, del and publish with JSON, which is a parameter.
--   Requests: src/common/decorators/validations, what is checked of the values of a request. Responses: src/common/interceptor
--     and src/common/filter, the form of every response.
--   Cluster: src/infrastructure/cluster/leader-election.service.ts, role/role.service.ts, and the gateway
--     src/infrastructure/externals/external-websocket.gateway.ts. Cluster/System is a step relation of all instances over one
--     Redis: a step is one call (elect, heartbeat, watch, shutdown) in one instance at one time.
--   Socket/Manager: src/infrastructure/externals/exchange-rates/websocket-manager.service.ts; Socket/CoinApi:
--     coin-api/coin-api-ws.service.ts there, with its socket, its reconnect timer and its retry count as state; Socket/Fallback:
--     coin-api/mock/coin-api-socket-mock.service.ts, which the modules provide as the fallback service.
--   ExchangeRate: src/modules/exchange-rate. Constants and Names are its constants, ExchangeRate.antt is
--     exchange-rate-redis.service.ts, Daily is exchange-rate-daily.repository.ts, Latest is the part of exchange-rate.service.ts
--     that keeps Redis (initializeAllCurrencyData, handleLatestRateUpdate) with latest-rate.listener.ts, and Queries the part
--     that answers (getCurrencyExchangeRates, getHistoricalRates, calculateDailyRates). The table of daily rates is the parameter
--     DailyTable, with the unique key and the column types of prisma/schema.prisma: it keeps a code of three characters and a
--     rate that a decimal column can hold, and refuses longer codes and NaN. Daily/Memory is such a table. Controller is
--     exchange-rate.controller.ts with its request objects, from the parsed query to the response.
--   Agents: src/common/agents/functions/exchange-rate.function.ts, which puts a summary together from the services.
--   Sse: src/modules/sse/services/latest-rate-sse.service.ts; Sse/Controller: sse.controller.ts.
--   Prisma: the client of one database table as an interface with its documented laws; Prisma/Memory is a table in memory.
--   Watchlist: src/modules/watchlist/watchlist.service.ts and watchlist.repository.ts, over that interface; Watchlist/Pages is
--     a client of getInterestCurrencyList that follows the cursors, Watchlist/Controller is watchlist.controller.ts.
--   Users: the devices of src/modules/users (users-device.repository.ts, and registerUserDevice and deleteUserDevice of
--     users.service.ts), over that interface; Users/Login: users.repository.ts, findUserByIdx and handleSocialLogin.
--   Auth: src/modules/token/token.service.ts and src/modules/auth (its service, guards, strategies and controller), over the
--     parameters Jwt and Passport.
--   Providers: src/infrastructure/externals/exchange-rates, the clients currencylayer, coin-api, fixer and frankfurther, whose
--     HTTP requests are a parameter; Providers/CurrencyLayer/Start puts the first one behind the initialisation, and
--     Providers/CurrencyLayer/StandIn is its stand-in (constant/currencylayer.constant.ts, mock/currencylayer-mock.service.ts).
--   RateUpdates: src/infrastructure/redis/subscribers/rate-update.subscriber.ts and the listener
--     src/modules/exchange-rate/listeners/update-rate.listener.ts, between what Latest publishes, Sse and Notifications.
--   Notifications: src/modules/notifications (price-notification.service.ts, notification-trigger.service.ts),
--     with src/modules/notification-histories and src/modules/fcm/fcm.service.ts, over that interface.
--   Scheduling: src/modules/scheduling/schedule-manager.service.ts (runDailyAggregation), over Redis/LockManager and the rates.
--   A module Tests holds instances of the theorems at concrete inputs.
--
-- How state is modelled. A service's fields are a record that its operations take and return; an exception is an error of
-- Result, or none where an external API throws. A method that awaits is one step, except the task under a lock and the
-- steps of the cluster, where other clients come between. Times are arguments in milliseconds.
--
-- Fuel. The loop of getDatesBetween has fuel, a round for each day of the period and one more, and so has the client that
-- follows the cursors, a page for each pair and one more; that it is enough is part of their theorems. All other loops go
-- through lists.
--
-- Not modelled: logging, configuration and the modules' wiring, which carry no state; API documentation; the controllers that
-- only call one method; the call of the language model; the fixed answers that stand in for Fixer; the market status scheduler,
-- which no module registers.
pub mod Base
pub mod Date
pub mod Socket
pub mod Strings
pub mod Numbers
pub mod Redis
pub mod Cluster
pub mod Prisma
pub mod Providers
pub mod RateUpdates
pub mod Scheduling
pub mod Auth
pub mod Sse
pub mod Users
pub mod Notifications
pub mod Watchlist
pub mod ExchangeRate
pub mod Requests
pub mod Responses
pub mod Agents
