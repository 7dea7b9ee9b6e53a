-- ===== src/Lib.antt =====
-- The AI coaching agent: a platform of ten independent packages, packages/uc01 to packages/uc10, each
-- with a domain of pure rules, an application layer over ports, and adapters. This library models the
-- core of two of them.
--
-- Streak: packages/uc08/uc08, the streaks, freeze offers and milestone badges of a learner.
--   Streak.Time      domain/time_utils.py: moments as microseconds from 0001-01-01 UTC, the civil
--                    calendar by era arithmetic
--   Streak.Records   domain/enums.py, domain/models.py, domain/errors.py, application/degradation.py
--   Streak.Rules     domain/streak_rules.py: decide and the apply functions
--   Streak.Store     adapters/persistence/memory.py (World) and the outside of one call (Env)
--   Streak.Writer    application/streak_persistence.py: one write, one retry, then preserve
--   Streak.Badges    application/badge_service.py
--   Streak.Freeze    the offers of application/streak_service.py
--   Streak.Service   StreakService.record_activity and its helpers
--   Streak.Answer    StreakService.get_state, accept_freeze, decline_freeze
-- The service reads the record and the set of processed interactions, asks the activity provider for
-- prior activity, lets the rules find the next record, hands it to the writer, and then evaluates the
-- badges; an offer is made only with a reset that was committed.
--
-- Socratic: packages/uc05/uc05, the Socratic dialogue.
--   Socratic.Vocabulary   domain/enums.py
--   Socratic.Machine      domain/state_machine.py: the table, its lookup, the events of intents
--   Socratic.Dialogue     domain/models.py, domain/profiles.py, application/reasoning_chain.py
--   Socratic.Repeat       domain/normalisation.py: similarity and is_repeat
--   Socratic.Service      application/socratic_service.py over adapters/memory/repositories.py: the
--                         state and the providers (State), shared helpers and _finalise (Turn), reply
--                         (Reply), ask and set_mode (Ask); the modules beside them are named for what
--                         they prove, and Reachable has the stores that calls lead to
-- A reply classifies the message, finds the event and then the row of the table, generates what is due,
-- and only then writes; the dialogue that it holds is a deep copy until it is saved.
--
-- Weekly: packages/uc08/uc08, the weekly summaries.
--   Weekly.Records        domain/models.py: a summary, what it is made from, what a run reports
--   Weekly.Service        application/weekly_summary_service.py over the repository of summaries in
--                         adapters/persistence/memory.py
--   Weekly.Skipped        the loop over the weeks without a summary
--   Weekly.Safety, Once   what a run leaves
-- A run looks up the summary of the week that has just ended, builds and saves one on the summary day
-- when there is none, and sends it; one that was not delivered is sent again on a later day.
--
-- Feedback: packages/uc10/uc10, ratings of responses and content review flags.
--   Feedback.Records      domain/enums.py, domain/models.py, ports/errors.py, application/results.py
--   Feedback.Flagging     domain/flagging.py, window.py, flag_work.py: the rule and the work items
--   Feedback.Store        adapters/memory/repositories.py, and what the outside answers
--   Feedback.Review       application/flagging_service.py; Durable and Status are named for what they
--                         prove
--   Feedback.Decision     the rule of a flag
--   Feedback.Rating       application/rating_service.py and feedback_facade.py; Current, Captured and
--                         Comments prove what a capture leaves
-- A capture saves the new rating before it marks the earlier ones, and then evaluates the topic, whose
-- failure it swallows. An evaluation records the intent to flag before it writes the flag, and resolves
-- the intent only after the write.
--
-- Gaps: packages/uc07/uc07, from a history to the topics that are a struggle.
--   Gaps.History          domain/counting.py and application/aggregation.py
--   Gaps.Signals          application/signals.py
--   Gaps.Recommendations  application/recommendations.py
--   Gaps.Grounded, Counting, Resolved   where the evidence comes from, what counts, and what the
--                         recommendations refer to
-- The records that a provider returned are counted and grouped by topic, thumbs down are mapped to the
-- topics of counted interactions, and a topic that reaches a threshold becomes a finding; the candidates
-- for recommendations are checked against the catalogue and the learner's enrolments. The order in which
-- Python goes through a set is a parameter.
--
-- Modelling choices. Identifiers are numbers, since they are only compared; an identifier made from
-- parts is the tuple of its parts; an empty identifier, which some guards take for a missing one, is
-- not modelled. A call is a function from the world to a result or what it raises, with the world that
-- it leaves; what the clock and the providers answer and which calls of a repository fail is an
-- argument (Env), and theorems hold for every one that their conditions allow. A call of a repository,
-- to read or to write, that fails has stored nothing. The in-memory repositories lock each operation,
-- and calls for one learner are not interleaved. A mapping is an association list in insertion order.
-- Similarities are fractions in place of floats. Texts of the fixed vocabulary are named, not spelled.
-- In Weekly and Feedback a call is an Effect (Common.Effect), with triples for what it leaves; in
-- Feedback the world counts the questions that were put to the outside. Loops are over lists or over the two
-- attempts of the writer, save the one over the skipped weeks, which has the number of weeks between its
-- bounds as its rounds.
--
-- Not modelled: the API layers, adapters over HTTP and files, logging, settings and dependency wiring;
-- the constraints of pydantic beyond those named; the text layer (stems,
-- intent rules) and the guards of uc05, which are parameters of the model; the packages uc01 to uc04,
-- uc06 and uc09, and the report of uc07; deploy, scripts and the TypeScript reference.
pub mod Common
pub mod Streak
pub mod Socratic
pub mod Feedback
pub mod Weekly
pub mod Gaps
