-- ===== src/Lib.antt =====
-- A training tracker for programming contests: accounts, teams and messages in the user service, and
-- a crawler that stores the submissions of the users' accounts on judge sites in the core-data
-- service. The two services have a database each and are modelled apart.
--
-- The user service. A handler checks the caller and its arguments, calls the data layer, turns an
-- error of it into its own, and writes a row of the operation log. The database is a record of
-- tables, a table is the list of its live rows in key order (Table), and a call is a function of the
-- database which returns a value or an error and the database it leaves (User.Tx). A transaction
-- rolls back when its body returns an error; a call outside a transaction leaves what it has
-- written. That the database itself fails is not modelled, in neither service, but for Create in
-- Register and the statements of SetSpider.
--   User.Db          the rows of app/user/internal/data/model and the tables
--   User.Tx          calls, errors and transactions; the rules for their postconditions (Yields) and
--                    for what they preserve (Preserves)
--   User.Service     the signed-in caller and the operation log (service/audit.go)
--   Permission       app/common/permission/const.go, app/common/utils/auth/check.go and
--                    app/user/internal/service/permission_rules.go
--   Team             app/user/internal/data/dal/group.go: Owner has the writes, team_rules.go and
--                    ensureGroupOwner, Admin has Create, Delete, Update and GetWithUsers, Members and Invites have
--                    the methods of a team; Service has the handlers of team.go and group.go
--   Account          Dal is data/dal/profile.go; Service has the handlers of profile.go, role.go and
--                    password.go; Login those of auth.go and auth_rules.go
--   Messages         Dal is data/dal/message.go, Service the handlers of message.go
--   Api              the requests that may write users and groups, and the states they lead to;
--                    TeamDetail and Get of a group are among them, since GetWithUsers may write an owner
-- Row ids are natural numbers; 0 is no row. Soft-deleted rows are gone. Times of rows, details of
-- the log, and the cache keys, which nothing reads, are left out. bcrypt and the signing of tokens
-- are parameters.
--
-- The crawler. A request queues a refresh job unless one is active (Do), a worker runs the job over
-- the platforms that the user has bound (LoadData), and for each platform fetches the submissions,
-- normalizes them, and replaces or extends the stored ones.
--   Spider.Normalize app/core_data/internal/biz/service/spider_normalize.go
--   Spider.Store     fetchAndSave and loadOnePlatform of biz/service/spider.go
--   Spider.Jobs      app/core_data/task/spider.go and scope.go, and the updates of a job
--   Spider.Load      LoadData
--   Spider.Service   Retry and RebuildAll of app/core_data/internal/service/spider.go
--   Spider.Sync      the rows of spider_sync_statuses, their updates by the worker, and Status
--   Spider.Binding   Update and SetSpider with their rate limits
--   Spider.Listing   Job, Jobs and Health
-- What a platform answers, what RabbitMQ answers, and, for LoadData, whether a platform was refreshed
-- a short time ago and the texts of errors are parameters; so is the limiter of golang.org/x/time/rate. The loop of loadOnePlatform runs on the number of attempts
-- that it has left, 12 or 1, so it needs no other bound. Two jobs at once are not modelled: a run of
-- LoadData is one step.
--
-- The contest pages. GetContestRanking lists the users of a contest by rank, with the ranks of the
-- contest's site where it can be asked, and draws the board of the listed users: which problems the
-- contest has, by the site's metadata or by what was submitted, and what each user's submissions during
-- and after the contest are worth. Integers of 32 bits are held as the number below 2^32 with their
-- bits; times are microseconds, and `none` is Go's zero time.
--   Contest.Users    collectContestUserIDs of app/core_data/internal/service/contest_matrix.go
--   Contest.Status   app/core_data/internal/data/dal/statistic_rules.go
--   Contest.Alias, Contest.Address, Contest.Problems
--                    the problems of contest_matrix.go, their names, indices and addresses
--   Contest.Board    calculateContestProblemMatrix; its children Split, Verdict and Stats read the rules
--                    of the board off the submissions, and Laws compares the two
--   Contest.Matrix   loadContestSubmissions and buildContestMatrix
--   Contest.Cache    app/core_data/internal/service/contest_meta_cache.go
--   Contest.Official the standings of Codeforces, and app/core_data/internal/service/contest_official_rank.go
--   Contest.Ranking  sortContestLogs and paginateContestLogs of contest.go, and the queries of
--                    app/core_data/internal/data/dal/spider.go
--   Statistics.Snapshots
--                    the snapshots of app/core_data/internal/service/statistic_ops.go and their cleanup
--   Statistics.Achievements
--                    achievementPercentile and achievementMedian of that file
-- The tables of Unicode, the answers of the sites, the operations of float64, what PostgreSQL makes of
-- a jsonb text, and the clock are parameters. The loop over the
-- missing problems of a NowCoder contest runs on the number of problems it is to reach: each of its
-- rounds adds one or changes nothing, so more rounds end in the same way.
--
-- Shared: Prelude passes library names on and has a stable sort, Text has the functions of strings that
-- the code calls, Table the queries, Tests small inputs.
--
-- Not modelled: pages of the user service that only read, the metadata that is read from the HTML of
-- AtCoder and NowCoder, the rest of the statistics and the bulletins of the core-data service, the plugins
-- of the platforms, the summary agent, app/gateway, which is a copy of go-kratos/gateway, generated
-- code, and the wiring of the services.
pub mod Prelude
pub mod Text
pub mod Permission
pub mod Table
pub mod User
pub mod Team
pub mod Account
pub mod Messages
pub mod Spider
pub mod Contest
pub mod Statistics
pub mod Api
pub mod Tests
