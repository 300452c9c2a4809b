-- ===== src/Lib.antt =====
-- Verification of the Add_members Telegram bot (Python).
--
-- The bot works in one process with one event loop. It scrapes the members of groups, adds them to a
-- target group with several accounts at once, and protects groups. A run goes like this: an account
-- comes in by the login of account_login.py and is locked while a job uses it by account_state.py;
-- scrape_optimize.py harvests users from messages; add_engine.py drops the users who cannot be added,
-- orders the others, and keeps who is never added again in a cache over the tables of db.py;
-- add_queue.py makes the final order; the invitations are spaced by the throttle of add_engine.py and
-- confirmed afterwards; callback_router.py and step_router.py dispatch the buttons and the dialogues.
-- The target group is chosen by add_engine.py from the configuration in db.py. In groups, defender.py
-- and group_manager.py guard: they read the joins, the messages and the commands.
--
-- Files and sources:
--   Base             what the others share: tests on numbers, texts as lists of code points, Python
--                    dictionaries as association lists in the order of insertion, stable sorting
--   AccountState     account_state.py, the locks on accounts
--   AccountLogin     account_login.py: Phone has `normalize_phone`, the root has the sessions and
--                    `start`, Submit has the code, the password and what is saved
--   CallbackRouter   callback_router.py, exact keys and prefixes
--   StepRouter       step_router.py, handlers of a step with guards
--   AddQueue         add_queue.py, the order of the queue
--   Db               db.py: the tables of added users and of users never to add; Config has the
--                    target group and the phone of the owner, Limits the limitations of the accounts
--   AddEngine        add_engine.py: Members (order), Prefilter (the privacy filter and its loop over
--                    batches), Blocked (the cache), Throttle, Cooldown (rests and caps), Joined (was
--                    the user really added?), Target (references to chats, the choice of the target
--                    group, and how an account reaches it)
--   ScrapeOptimize   scrape_optimize.py: Oracle (is a user a member?), Harvester (everyone a message
--                    shows)
--   ScrapeApi        scrape_api.py, the generators that read answers page by page
--   Defender         defender.py: the guard of the main group. Causes (who is banned, and why), Bans
--                    (what a ban does to later ones), Traps (planted tokens)
--   GroupManager     group_manager.py: Store (the settings of the chats and the panel), Admins (the
--                    cache of who is an admin), Joining (new members: raids, CAS, captcha), Messages
--                    (the checks of a message and what follows), Warnings (their count and what
--                    follows the last), Window (the deque of dated entries that both floods keep),
--                    Durations (2h30m), Commands (/ban, /mute, /warn, /purge and the others)
--
-- How the code is read:
--   - State is passed on explicitly. A function that holds a lock is one step, and a property of
--     several calls speaks of a list of calls.
--   - A clock reading is a natural number of microseconds, in Db.Limits of seconds. What Telegram, the
--     database and the random generator return is an argument of the operation that asks for it; a
--     failure is a value.
--   - A text is a list of code points. `strip` knows the white space of Python; which characters are
--     digits is a parameter. `lower` changes ASCII letters where the words that it is compared
--     with are ASCII words, and is a parameter elsewhere.
--   - An exception is the second part of a result, or the case of a data type.
--
-- Bounds: the loop of the privacy filter over batches of 100 has the number of staged members as its
-- fuel, and each round takes at least one of them away. Printing a number has fuel above the number.
-- The other loops recurse on a list or on a count of rounds.
--
-- Not modelled: the other tables of db.py, parallel.py, account_doctor.py and session_store.py; the
-- user interface (bot.py, web_app.py), the clients of Telegram (attacker.py and the scraping over it),
-- scheduled jobs, logging, and what computes with floats (delays, ratios).
pub mod Base
pub mod AccountLogin
pub mod AccountState
pub mod AddEngine
pub mod AddQueue
pub mod CallbackRouter
pub mod Db
pub mod Defender
pub mod GroupManager
pub mod ScrapeApi
pub mod ScrapeOptimize
pub mod StepRouter
