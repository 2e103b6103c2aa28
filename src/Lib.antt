-- ===== src/Lib.antt =====
-- DNSViz: a verification library of its query handling, its review and classification of responses,
-- and its DNSSEC statuses.
--
-- The program queries DNS servers, keeps for each response the history of its attempts, and judges
-- the signatures, delegations and denials of existence in the responses.
--
-- Parts, and the code that they model:
--   Query: dnsviz/query.py. Query/Types has the retry causes, actions and attempts; the
--     children of Query/Handlers and Query/Cookie have one function for each handler's `handle`; Query/Pmtu is the state
--     machine PMTUBoundingHandler; Query/Chain is DNSQueryHandler, whose `handle_response` consults
--     the handlers in turn and decides to accept or to try again; Query/Serial writes and reads the
--     attempts.
--   Response: dnsviz/response.py. Response/History is DNSResponse._review_history, which replays the
--     recorded attempts; Response/Classify has the predicates of DNSResponse,
--     Response/Report its tags, counts and the addresses that it gives. Response/Replay
--     compares the review with the query handler.
--   Denial: NSECSet of dnsviz/response.py (Denial/NsecSet, Denial/Closest) and the NSEC statuses of
--     dnsviz/analysis/status.py (Denial/Wildcard, Denial/Status and its child Nodata;
--     Verdict and Valid say when they are VALID).
--     Denial/Nsec3 and its children are the NSEC3 statuses: what they have in common, NXDOMAIN and
--     Wildcard (Nxdomain), NODATA (Nodata), and their verdicts (Returns, Verdict, Valid, Matching,
--     Bitmaps, Next, Reported).
--   Aggregate: dnsviz/query.py. Aggregate/Table is the dictionary of responses by server and client;
--     Aggregate/Queries is DNSQuery, whose `responses` it is (Clones, Joined and Projected are about
--     its view as a map); Aggregate/Predicates has its predicates, Aggregate/Multi is MultiQuery.
--     Aggregate/Rrsets: RRsetInfo of dnsviz/response.py, and CNAMEFromDNAMEStatus.
--   Analysis: dnsviz/analysis/offline.py. Analysis/Delegation is _populate_ds_status, the status of a
--     delegation (Anchored and Secure say when it is secure); Analysis/Edns, Cookies, Responses and
--     Servers are the methods that assess EDNS, cookies and flags of a response, and the servers;
--     Analysis/Responsiveness is what had to be changed to get a response; Analysis/Cnames is
--     _detect_cname_loop, with fuel for its calls: one more than there are names with targets.
--   Status: RRSIGStatus and DSStatus of dnsviz/analysis/status.py (Status/Rrsig, Status/Ds); an error
--     or a warning is a constructor of Status/Issue.
--   Keys: DNSKEYMeta of dnsviz/response.py and the RSA parser of dnsviz/crypto.py.
--   Base32: dnsviz/base32.py.
--   Dns: the data of dnspython that the program reads, and its operations as parameters with their
--     documented laws (use_edns, the order of names, the hash functions, the cryptographic checks).
--   Base: numbers, lists and integers that the parts share. Tests: runs and concrete arguments.
--
-- How state is modelled: the fields of an object are a record, a method that changes them returns
-- the new record; the dictionary and the lists that the handlers share are the record Context. An
-- exception is a value. A dictionary or a set is a list, in the order of insertion. Times are in
-- milliseconds for queries, but in microseconds where a response took them, and in seconds for
-- signatures; the float arithmetic that writes a response time is a parameter. Python's integers are natural numbers
-- where they cannot be negative, and integers where the payload sizes are subtracted.
--
-- But for _detect_cname_loop no function needs fuel: each loop of the source is a recursion on the
-- list or the name that it goes through. How many attempts an exchange makes is not bounded by a definition; the limits are
-- handlers of the list.
--
-- Not modelled: the transport, threads and sockets (dnsviz/transport.py and execute_queries of
-- dnsviz/query.py), because they are input and output; serialization, the text of errors, commands
-- and drawing; the resolver, the aggregation of answers and the rest of the analysis of a name
-- (dnsviz/resolver.py, dnsviz/analysis/online.py, dnsviz/analysis/offline.py), which are left out so
-- far.
pub mod Aggregate
pub mod Analysis
pub mod Base
pub mod Base32
pub mod Denial
pub mod Dns
pub mod Keys
pub mod Query
pub mod Response
pub mod Status
pub mod Tests
