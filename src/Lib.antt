-- ===== src/Lib.antt =====
-- Verification of the AtHome search harness: the store behind it, the worker and the harvester that
-- fill it, the encoder of filters and the shortlist.
--
-- The program turns a question in natural language into a search of a property portal. A session of
-- the command line (cli.py) plans the search, encodes the plan's hard filters (filters/encoder.py),
-- harvests result pages, scores them with a language model, and keeps every listing, its agency and
-- the user's feedback in SQLite (store/sqlite_store.py). Detail pages are fetched later by a worker
-- that takes jobs from a durable queue in the same database. All sources stand under
-- src/athome_harness.
--
-- Common and its children hold what the parts share: Boolean tests, results of code that may raise,
-- lists of rows, dictionaries.
--
-- Models is models.py: listings with their completeness and freshness, agencies, hydration jobs. A
-- dumped field value is known as far as the store looks into it, and the many plain fields of a
-- listing are a dictionary of such values.
--
-- Store is store/sqlite_store.py. Store/Db has the tables, each a list of rows in the order of
-- insertion, and the exceptions. Store/Queue has the hydration queue: fresh_detail, enqueue_hydration,
-- claim_hydration, transition_claimed, acknowledge_hydration_success, record_hydration_failure and
-- cancel_hydration are the methods of those names. Store/Merge is _merge_listing and _merge_agency,
-- and Store/Listings is upsert_listing with its IntegrityError branch, get_listing, get_fresh_detail,
-- upsert_agency, get_agency and link_listing_agency. Store/Schema is migrate on the catalog of a
-- database, and Store/Feedback is save_listing, reject_listing, clear_feedback and their reads. An
-- operation takes the clock's reading, and the token that uuid4 draws, as arguments; it returns the
-- value or the exception beside the tables as they are then. Instants are microseconds in UTC: the
-- store compares ISO texts of one format, whose order is that of the instants. An operation is one
-- step on the tables: claim_hydration is one by BEGIN IMMEDIATE, whichever processes share the
-- database, and the others are where nothing writes between their statements. A SELECT without ORDER
-- BY takes the first row of the table that fits.
--
-- Filters is filters/: Filters/Conditions has the conditions map of map_schema.py, Filters/Encoder the
-- functions of encoder.py by their names, and Filters/Schema has validate and the functions below it,
-- where the match of a regular expression and the magnitude of a label are arguments. The messages of
-- exceptions are left out.
--
-- Scraping/Challenge is scraping/challenge.py, and Scraping/Harvester the page loop of
-- scraping/harvester.py, with the fetch, the parser and the clock as arguments. Scraping/Proxy is the
-- rotation of scraping/proxy/base.py. Scraping/Worker is scraping/detail_hydration_worker.py: run and
-- process are _run and _process, they call the store's operations above, and what one job meets
-- outside (clock, token, fetch, parsers) is a record of arguments.
--
-- Llm/Shortlist is llm/shortlister.py without the call of the provider: pack_batches, and shortlist on
-- the answers of the batches in the order of their completion. Llm/Recommend is the loop of
-- llm/recommender.py over the model's ranking. Llm/Completion is complete_json of llm/base.py with
-- debug off, where the transport and the reading of JSON are arguments, and Llm/QueryParser is
-- llm/query_parser.py over it. Llm/Transport is complete_text of llm/openai_compat.py, over the
-- answers to its posts.
--
-- Scraping/Http is scraping/http_adapter.py: request_bytes and http_get are _request_bytes and
-- _http_get, and curl's answers are an argument, given the number of requests before.
-- Scraping/Refarmer is scraping/session_refarmer.py with debug off: it numbers the adapters it builds,
-- and keeps the list of those that were closed. Scraping/Cards is ingest_recommendation_cards of
-- scraping/recommendation_cards.py.
--
-- Cli is cli.py: Cli/Commands is parse_command on texts as lists of code points, and Cli/Details is
-- _scrape_details with _hydrate_detail, over the store's operations. Cli/Session is search, and
-- Cli/Prompt has save, reject, more_like, refine and the loop of interactive, over the models of the
-- encoder, the store, the shortlister and the recommender; what the parser of the query, the harvest,
-- the model and the writing of the reports do is a record of arguments. Store/History is the searches,
-- the recommendations and the cache of store/sqlite_store.py, in a record of their own since no other
-- table refers to them there.
--
-- Loops over lists, dictionaries and tables are structural recursion, so no fuel is needed; the loop
-- of the harvester counts down the range of its pages, and that of the worker the range of its jobs;
-- the loops of the HTTP adapter and of the refarmer count down their ranges too.
--
-- Not modelled: the dump of the filter map, the payloads and headers of requests, the texts of prompts
-- and reports, the rate limiter, the page parsers, the browser automation and the wiring of the
-- command line. JSON texts of payloads are read back as the values they were written from; the cache's
-- tagged payloads are modelled, over Python's int, float and str as arguments. Exceptions of SQLite
-- other than IntegrityError (a locked or broken database), a write of another process between two
-- operations of the worker, and parsers that raise OSError or a block have no case. The limit on the
-- digits that int() takes from a text is left out. Of the catalog of a database, the columns are those
-- of listings; the columns of other tables are not kept. The messages in the reasons of failed details
-- are left out, so a reason is the class of the exception.
pub mod Cli
pub mod Common
pub mod Filters
pub mod Llm
pub mod Models
pub mod Scraping
pub mod Store
