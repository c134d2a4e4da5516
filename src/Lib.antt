-- ===== src/Lib.antt =====
-- Verification library of BrambleGate, a DNS server for homes with several networks (VLANs): CoreDNS
-- with plugins of its own, configured from files through a web page.
--
-- The parts modelled and the files that model them, with paths from the repository's root:
--
--   * plugins/vlancache, the DNS cache: a request is answered from the scoped tier (answers for a
--     network that the upstream named, RFC 7871), else from the direct tier (answers for a VLAN),
--     else from the next plugin, once for all callers that ask at the same time.
--       entry.go     Vlancache.Entry          one cached response, `newEntry` and `toMsg`
--       key.go       Vlancache.Key            the keys of the two tiers
--       store.go     Vlancache.Store          the two tiers and the flush epoch
--       handler.go   Vlancache.Policy         what is cached, for how long and for whom
--                    Vlancache.Handler        `ServeDNS`, `fetch` and `refresh`
--     A store is a record that every operation returns anew. Vlancache.Store.Epoch has the steps that
--     goroutines take on it, as an indexed data type, and reachability as their sequences; the walk of
--     a flush is a sequence of visits, with other steps between. In
--     Vlancache.Handler a call of the singleflight group is led, with the next plugin's result and
--     what other goroutines do to the store meanwhile, or joined, with the leader's call.
--   * plugins/querylog: every query that passes the chain is recorded once, in a ring and in counters,
--     and handed to a database's write buffer, if there is one.
--       entry.go     Querylog.Entry           one observed query
--       ring.go      Querylog.Ring            the last queries; Ring.Refine has the log it implements
--       stats.go     Querylog.Stats           the counters, and the series of the last 24 hours
--       handler.go   Querylog.Handler         `ServeDNS`; also hosts.go, client_observer.go, and
--                                             `Record` of store.go
--     An index out of range is a run-time panic, `none` in these definitions.
--   * plugins/localrecords: the answers for the zones that the server owns, by the client's VLAN.
--       handler.go   Localrecords             `effective`, with the records; also ddr.go
--                    Localrecords.Answers     `buildAnswers` and `namePresent`
--                    Localrecords.Handler     `ServeDNS`
--       setup.go     Localrecords.Setup       `loadZoneData`, and that it takes what configgen renders,
--                                             by the JSON names of zonedata.go (Setup.Loads, and
--                                             Setup.Served from the configuration to the effective
--                                             answer of a record)
--   * plugins/mdnsbridge: devices found by mDNS, as DNS names.
--       selector.go  Mdnsbridge.Glob          the glob matcher
--                    Mdnsbridge.Selector      which entries a selector matches; also config.go
--       table.go     Mdnsbridge.Table         the table: its operations, and `Resolve`
--       handler.go   Mdnsbridge.Handler       `ServeDNS`
--       listener.go  Mdnsbridge.Listener      what is browsed, and what the reports of the browses,
--                                             the ticks and the other operations make of the table; also internal/mdnsquery/browser.go
--     The matcher's loop runs on fuel, `none` when it ends; `rounds` is the fuel, a lap over the
--     pattern and the text for each byte of the text, which is enough for every input.
--   * plugins/clientnames: the names of client addresses, for the query log: from the static hosts,
--     from the table of mdnsbridge, or from a PTR query that a queue puts off.
--       table.go     Clientnames              the table: its operations, `Resolve` and `Snapshot`; also
--                                             entry.go, config.go and ptr.go
--     Clientnames.Runs has the operations in any order, the second critical section of an attempt
--     among them, since others may come between the two.
--   * mdnssd: discovery of services by multicast DNS, for mdnsbridge.
--       response.go     Mdnssd.Response       what is read of a message; also query.go
--       cache.go        Mdnssd.Cache          lifetimes and refreshes; also knownanswer.go
--       browser.go      Mdnssd.Browser        `Ingest` and `Tick` of a browse; also service.go
--       browsetypes.go  Mdnssd.Types          the same for the discovery of service types
--     A refresh threshold is computed on integers, which is exact for the lifetimes that occur, whole
--     seconds. The loops over the transport that call these are runs over lists of events.
--   * vlanmatch/table.go: Vlanmatch, the table that names the VLAN of an address. The cache picks
--     its bucket by it.
--   * model: the names and the settings.
--       domain.go       Model.Domain          `ParseDomainName`, with the normal forms of names
--       settings.go     Model.Settings        the fields that are read; also records.go, hosts.go and
--                                             selector.go
--   * internal/configgen: what is checked of a configuration, and what is rendered from it.
--       validate.go     Configgen.Vlans       the VLANs, which must be disjoint: the premise for the
--                                             answer of vlanmatch not to depend on their order
--                       Configgen.Settings    listeners, upstream, ACME, mDNS, log and client names
--                       Configgen.Hosts       the static hosts
--                       Configgen.Records     the records
--                       Configgen.Validate    `Validate` and `Render`
--       configgen.go    Configgen.Zones       the zones, the DDR records, the records made for the
--                                             server's own name, and the zone data
--                       Configgen.Corefile    the text of the Corefile, with corefile/block.go, and the
--                                             hosts file
--
-- Prelude has what these share: lists, maps, strings as lists of bytes, addresses and networks, and
-- signed integers over the native numbers. Dns has the messages and what the plugins use of
-- github.com/miekg/dns, as parameters with named laws. Also parameters: net.ParseCIDR, the cache of
-- coredns behind the direct tier (`IsCacheAdd`, and the shard of a key for its Walk), response.Typify and the other functions in
-- Vlancache.Policy.Upstream, the zones' Matches and ClientWrite of coredns, net.ParseIP, net.SplitHostPort,
-- strconv.ParseUint, strconv.Atoi, dns.ReverseAddr, dns.CanonicalName
-- and the exchange of a PTR query. Times and durations are integers that count nanoseconds, without the
-- wrap-around of int64, which they do not reach. The flush epoch wraps at 2 ^ 64. Loops are structural
-- recursion. `buildAnswers` runs on fuel as well, since the code follows CNAME records without a bound:
-- `none` says that the fuel ran out, and a measure that falls along the records is enough.
-- `nearExpiry` compares integers where the code compares floating-point quotients. Strings that the
-- code folds or trims are taken to be ASCII.
--
-- Not modelled: the web page and its templates, the command line, certificate issuance, the database
-- behind the query log, the JSON text of the zone data, the mDNS responder, and the network
-- transports.
pub mod Prelude
pub mod Querylog
pub mod Vlanmatch
pub mod Configgen
pub mod Dns
pub mod Vlancache
pub mod Localrecords
pub mod Mdnsbridge
pub mod Mdnssd
pub mod Model
pub mod Clientnames
