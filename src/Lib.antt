-- ===== src/Lib.antt =====
-- FM21: a radio station for several cities. The injector keeps one queue of pending items per city in Redis and
-- fans a request out to the queues of its targets; Liquidsoap plays them. The news workers fetch, summarise and
-- voice items at fixed minutes of the hour and enqueue them. The ads service takes the operators' voice ads and
-- hands them to the injector. The music worker fills the queues up, the metadata service shows what plays and
-- what is queued, and the geo service finds a listener's city. This library models the services' own code; the
-- database, Redis, the remote services and Python's parsers are parameters, with the laws that the code relies
-- on and an instance that has them.
--
-- Which file models which part (paths from the root of the repository):
-- + Base, Base/*: the helpers of all parts: results, searches, sorting, dictionaries, texts, integers and JSON
--   values (whose numbers are integers).
-- + Redis: the commands of the store, with their laws, and a store in memory that has them. Table: a table of
--   the database with the laws of its statements, and a list that has them. Keyed: the same for a table whose
--   rows bring their key along.
-- + Common: services/common/security.py. Datetime: the instants of Python's datetime, in microseconds.
-- + Injector/*: services/injector/fanout.py (Fanout), queue.py (Queue, Upkeep) and main.py (Service; Requests:
--   its body and its response). A method of QueueClient is a function from the store to its answer and the
--   store; a Lua script is one step. Counts, Cap, Targets, Safety, Delivery and Purge hold the proofs.
-- + News/Clock: services/news/slot_clock.py. The searches for the next tick run on 1440 minutes, as in the code;
--   a tick is met within 15, so they never run out.
-- + News/Items: services/db/models.py (NewsItem), services/news/db/repository.py and the reset of
--   services/news/workers/play_count_reset.py. Items/Workflow has the steps of the workflow, Items/Runs what any
--   sequence of calls does.
-- + News/Selection, News/Rotation: services/news/selection.py. ORDER BY is a sort by the same keys.
-- + News/Slip, News/Guard: the slip guard of services/news/enqueue.py. News/Air: the rest of that file and
--   services/news/play_count.py, the pins of services/news/pipeline.py (Air/Pins), one run of
--   services/news/workers/enqueue_cron.py (Air/Run) and of materialize_cron.py (Air/Materialize). Air/Counted
--   and Air/Handover hold the proofs; Air/Broadcast puts the worker and the injector's endpoint together, on one
--   store.
-- + News/Ingest: services/news/fetcher/normalize.py and dedup.py. News/Feeds: services/news/fetcher/rss.py and
--   services/news/workers/fetch_cron.py. News/Sources: services/news/sources_loader.py.
-- + News/Pipeline: services/news/pipeline.py, services/news/workers/summarize.py (its two functions),
--   services/news/summarizer/validate.py and voice_news_item of services/news/tts/salutespeech.py. News/Speech:
--   the rest of that file, services/news/tts/auth.py and the paths of services/news/storage/local.py.
-- + Ads/*: services/ads/repository.py (Records), injector_client.py (Client), service.py (Submit) and routes.py
--   (Routes). The world of a submission is the table of the ads and the files of ADS_DIR; an exception that
--   leaves the session rolls the table back.
-- + Metadata/*: services/metadata/now_playing.py (NowPlaying), queue_reader.py (Queue), health.py and
--   listeners.py (Health).
-- + Geo/*: services/geo/cities.py (Registry), geoip.py, reverse.py and main.py (Detect). Geo/Listed has the
--   reading of the file, Geo/Called the match of a name, Geo/Places the reverse lookup. Coordinates are
--   integers, in millionths of a degree.
-- + Music/*: services/music/rules_schema.py (Rules), rules_loader.py (Resolve), buffer_worker.py with enqueue.py
--   (Buffer, Worker), yandex_provider.py (Yandex) and its cache with services/cron/cleanup_tracks.py
--   (StreamCache), whose answers StreamCache/Transparent follows over a sequence of uses, the client given anew
--   for each. Fill has the posts of the loop of fill_city. The loop of fill_city runs on the attempts that the
--   code counts, so its fuel is the code's own bound.
-- + Bot/*: services/bot/handlers/conversation.py (Conversation) and services/bot/middleware/auth.py (Auth). The
--   clock of the process is an argument, in microseconds. Taps looks at a tap on a voice that waits. City:
--   services/bot/handlers/city.py and voice.py; City/Accepted looks at any sequence of messages and taps,
--   City/Choice has /city with services/bot/storage/operator_prefs.py. Order: services/bot/handlers/order.py and
--   services/bot/parsers/order.py, with the texts of the buttons in Order/Taps; Order/Once looks at any sequence
--   of commands and taps. Playlist: services/bot/handlers/playlist.py, services/bot/storage/playlist_config.py
--   and services/music/config_service.py.
-- + Cron/*: services/cron/timing.py and the choice of jobs of services/cron/scheduler.py (Timing),
--   services/cron/cleanup_ads.py (Cleanup), and the runs of the scheduler with the midnight reset (Jobs).
--
-- The parts meet as in the code: the injector, the music worker and the preview read and write the same lists of
-- the store; the enqueue worker and the endpoint of the injector work on one store; what /playlist writes is
-- what the music worker reads; the ads service and the fan-out share resolve_target_cities; the pipeline works
-- on the repository's methods only.
--
-- Not modelled: the bot's status handler, the rounding of Python's floats, the times to live of keys in Redis,
-- logging, HTTP servers and clients as such, process start-up, environment variables (their values are
-- parameters), the tests, the deployment files and the web player.
pub mod Ads
pub mod Base
pub mod Bot
pub mod Common
pub mod Cron
pub mod Datetime
pub mod Geo
pub mod Injector
pub mod Keyed
pub mod Metadata
pub mod Music
pub mod News
pub mod Redis
pub mod Table
