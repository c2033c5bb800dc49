-- ===== src/Lib.antt =====
-- Model of the backend of MAAS Site Manager, the server that enrols MAAS sites and serves them
-- images: backend/msm in the repository.
--
-- How it is read. A database table is a list of rows, in whatever order the database returns them;
-- a `where` clause is a Boolean test on a row, `update` rewrites the rows that pass in place. The
-- SQL library, PostgreSQL, Temporal, S3 and the JOSE library are not modelled: of the database only
-- what the statements of the source say, with the unique columns of the tables and the refusal of an
-- UPDATE that sets no column, of a signature only that it is some function. A request is
-- a state transformer that answers or raises, and a raise drops what was written, since the
-- transaction of backend/msm/apiserver/middleware.py is rolled back. A request reads the clock
-- once: `now` is an argument. A fresh UUID is an argument too. Timestamps and durations are whole
-- numbers of one unit. Log lines, metrics and the texts of error details are left out.
--
-- The parts, and where they stand:
--
-- Common: shared names, Boolean tests, lists, tables as lists (Common/Rows), unique columns
-- (Common/Unique), requests that may raise (Common/Result) and what holds of their answers
-- (Common/Ensures), dictionaries as lists of entries (Common/Dict), stable sorting (Common/Sorts), and
-- texts as their code points (Common/Codes).
--
-- TokenCache: backend/msm/common/token_cache.py. The methods `is_valid`, `add` and `remove` are in
-- TokenCache.antt over the ordered dictionary as a list, oldest first; runs of calls are in
-- TokenCache/History, and the theorems in its other children.
--
-- Sites: enrolment. Sites/Tables has the rows of backend/msm/apiserver/db/tables.py; Sites/Tokens is
-- `TokenService` and Sites/Service is `SiteService` (backend/msm/apiserver/service); Sites/Handlers
-- has the handlers of backend/msm/apiserver/site/handlers/enroll.py (`post` is `enroll`, `get` is
-- `enroll_status`) and `authenticated_site` of site/auth.py. A handler is given the UUID that the
-- dependency `auth_id_from_token` takes from a verified JWT. Sites/Invariant says what the tables
-- satisfy between requests; Sites/Enrolment, Sites/Lifecycle and Sites/Decisions are about the
-- handlers.
-- The listings of sites and tokens with their filters, the counts and the metrics are not modelled.
--
-- Images: Images/Tables has the five image tables; of a foreign key it is modelled that a row that is
-- referred to cannot be deleted, and the unique columns where rows are inserted. Calls of Temporal and refreshes of the index view are recorded in
-- order as effects of the state, with the sources that Temporal has schedules for: a call on a schedule
-- that is not there raises. A request that raises leaves both as they were. Images/Purge is the removal of boot assets and boot sources
-- (backend/msm/apiserver/service/images.py and user/handlers/bootassets.py). Images/Available is the
-- handler `put_boot_source_avail_selections`, for any order of the set of new keys. Images/Retention is the
-- activity `remove_stale_versions` of backend/msm/temporal/activities/bootasset.py: the status with
-- which the server answers is a parameter, a dictionary is the list of its entries in order.
--
-- Images/Sources, Images/Sync and Images/Items are the sources with their schedules
-- (Images/Sources/Schedules), the handlers
-- that a synchronization calls (`put_boot_source_assets`, `remove_versions`, `get_source_assets`), and
-- the handlers of an item; the search of the database for a part of a text is a parameter.
-- Images/Selections is user/handlers/selections.py: the selectable and the selected images, the
-- selection and its removal, over the keys of Images/Keys. Images/Selections/Priority is about the
-- order in which the offers of an image come. Images/Index is `IndexService` with the
-- documents of the image streams, over the rows of its view: the filter for what is fully downloaded, the
-- partitions (Images/Index), the keys of products (Images/Index/Naming) and the index and the download
-- documents (Images/Index/Documents).
--
-- Profiles: the configuration of sites. Profiles/Configs has the config classes of
-- backend/msm/apiserver/db/models/global_site_config.py with their defaults and bounds, and
-- Profiles/Validators and Profiles/Addresses their validators, on code points; netaddr, the validation
-- of data and the characters beyond ASCII are parameters. Profiles/Store is
-- backend/msm/apiserver/service/site_profiles.py and Profiles/Handlers user/handlers/site_profiles.py, with the
-- handler of site/handlers/config.py that serves a site its configuration.
--
-- Storage: what goes to and comes from the object storage, as lists of bytes. Storage/Answers has the
-- streaming answers of backend/msm/apiserver/site/handlers/images.py, Storage/Upload the target of a multipart
-- upload in user/handlers/images.py with the loop that feeds it, and Storage/Download the resource manager
-- and the activities of backend/msm/temporal/activities/images.py. How the storage, the server and the upstream
-- answer is a parameter, an abort that is refused and a stream that fails to close included.
--
-- DbModel: `DBBackedModelService` of backend/msm/apiserver/service/base.py, the base of the settings
-- and configuration services, as functions on the rows of its table, for any type of values.
--
-- Users: accounts. Users/Service is `UserService` of backend/msm/apiserver/service/user.py, and
-- Users/Handlers the handlers of user/handlers/users.py with the dependencies `authenticated_user` and
-- `authenticated_admin` of user/auth.py. The functions of common/password.py are parameters. In
-- Users/Requests a request comes with the authentication id of its user, and a list of requests is
-- served one after the other. Users/Changes says what one request may do as a relation;
-- Users/Steps, Users/Accounts, Users/Outcomes and Users/Passwords are about the handlers.
--
-- Simplestream: Simplestream/Paths is `assert_safe_path` of backend/msm/temporal/management/utils.py, on
-- lists of code points and a POSIX system.
--
-- Schema: Schema/Sorting is the parser of the sort_by parameter of backend/msm/apiserver/schema.
--
-- Auth: `JWT.decode` of backend/msm/common/jwt.py, `auth_id_from_token_multi_aud` of apiserver/auth.py and
-- the dependencies of apiserver/user/auth.py for users, administrators and workers. Decoding by the
-- JOSE library, under the key and issuer of the configuration, and the parsing of a UUID are
-- parameters. They read the tables of Users and of Sites together.
--
-- Bounds and fuel: the loops of the code run over lists that they are given, and are recursion on these
-- lists. The one loop without such a list is the read loop of the answer with an object: it has fuel,
-- and more fuel than the object has bytes is enough, since every read before the last one takes some.
-- Numbers are natural numbers; the widths of the database columns are not modelled.
--
-- Not modelled: the frontend; the listings with their filters; OIDC; the creation of boot sources, and
-- of custom images beyond the upload of their bytes; refreshing the index view; the state reports of
-- sites; the workflows of Temporal, and of its schedules all but whether a source has
-- them; the metrics; the wiring of the web application.
pub mod Common
pub mod TokenCache
pub mod Sites
pub mod Images
pub mod DbModel
pub mod Users
pub mod Simplestream
pub mod Schema
pub mod Auth
pub mod Profiles
pub mod Storage
