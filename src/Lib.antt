-- ===== src/Lib.antt =====
-- The verification library of the Python parts of ffmuc-salt-public, the Salt states of Freifunk
-- München. The program is a set of modules that Salt loads and of small tools that its states
-- install; they share no state with each other, but two of them come in pairs: a state module
-- calls an execution module.
--
-- Prelude and its modules hold what the parts share: results with Python's exceptions
-- (Prelude/Result), code that changes a state and may raise (Prelude/Exec), dicts (Prelude/Dict),
-- JSON values (Prelude/Json), the str methods, the patterns and the number texts (Prelude/Text,
-- Prelude/Scan, Prelude/Numbers), and Python's stable sort (Prelude/Sort).
--
-- Cloudflare and its modules model _states/cloudflare.py. Record has validate_record,
-- record_from_dict and the tuple Record, Data its methods data, __str__ and json; Zone has the
-- class Zone with __init__, _request, the three requests that change a record, and desired;
-- Sanity has sanity_check, Existing has existing, Diff has diff, Order has _order, and Manage has
-- apply, _changes and manage_zone_records. The state of a run is a World: the state of the API,
-- and the requests in the order in which they are sent. Parameters are the API (what it answers
-- to a request, and its next state; a failure of the requests library is an answer too),
-- re.match, and the order in which Python walks a set. The loop of existing over the pages has no
-- bound in the source: the model has the number of rounds, and a run out of rounds raises an
-- exception that is no Python exception. The record count of a page is not bounded. An optional
-- key of a dict is an optional field; a value of an unexpected JSON type is not modelled.
--
-- Kea and its modules model dhcp-server/kea_pool_stats.py. Counters has _stat, _counters and
-- _status, Report has build_report, Nagios has nagios_result, and Socket has kea_command and
-- main. Percentages, and the limits they are compared with, are exact thousandths of a percent,
-- where Python rounds a float; Kea's statistics are natural numbers. Parameters are what the
-- control socket delivers for a command, json.loads and json.dumps. The option parser is not
-- modelled: the limits are arguments.
--
-- Ddns and its modules model _modules/ddns.py and _states/ddns.py. Message has the messages to a
-- name server, _config and _get_keyring; Update has update, Delete has delete, Hosts has add_host
-- and delete_host, and State has the state functions present and absent, which call update and
-- delete. The state of a run is a World: the name server's state, and the messages, each with the
-- server it goes to, in the order in which they are sent. The parameter Dns is dnspython with the
-- name server: the answer to a message, the parsing of types and data, what is said to the parts
-- of an update message; and the configuration of the minion and the keyring files. Of the keyword
-- arguments that are passed on, keyfile, keyname and keyalgorithm are modelled. The loops over
-- the parts of an address are structural.
--
-- Netbox and its modules model _modules/site_prefixes.py, _modules/netbox_vms.py and
-- _modules/extra_dns_entries.py, which are called while templates are rendered. Query has the try
-- statement that the three have in common, Lookups the three functions. Netbox behind the
-- requests library is a parameter: the response to a request, or an exception. The messages of
-- Python's own exceptions are stand-ins.
--
-- Respondd and its modules model respondd/respondd-tmpl/lib: RateLimit has ratelimit.py, Struct
-- has respondd.py, Merge has merge of helper.py, and Client has respondd_client.py, whose
-- buildStruct asks the limiter and then the cache of a collector. The state of a run is a Client:
-- the limiter, the three caches, the number of calls of buildStruct, and the packets in the order
-- in which they are sent. The clock's readings are arguments, in milliseconds for the rate limit,
-- which counts in parts of a token so that the quotients of the source are exact where Python has
-- floats. Parameters of the client are what each call of buildStruct finds (the clock, what the
-- collectors return or raise, the MAC address), json.dumps and zlib. The loop of start runs over
-- the messages that come. Clients and Statistics have the parts of statistics.py that read the
-- output of commands, Interfaces has getBatmanInterfaces of nodeinfo.py, and Neighbours with
-- Neighbours/Lines has neighbours.py; the lines that the commands give are arguments.
--
-- Rdns and its modules model _modules/ffmuc_rdns.py. An address is its version and its number,
-- and a network has a prefix of that; parsing, printing and reverse_pointer of ipaddress are the
-- parameter Ip. The value of custom is a list, as the source makes of a text.
--
-- Telegraf and its modules model telegraf/files/haproxy_peers_stats.py: Duration has duration_s,
-- Peers has parse_peers, Tables has parse_tables, Lines has tag, peer_line and table_line, and
-- Main has query, main and the try statement of the script. The patterns of re are matched by the
-- functions of Prelude/Scan; white space and line ends are those of Python's str, digits the
-- ASCII ones. Parameters are what HAProxy's socket delivers for a command, the decoding of its
-- bytes, and Python's floats with their repr; the conversion of an integer to a float may fail.
-- int raises for more than 4300 digits, Python's default. Printing does not fail.
--
-- Pillar and its modules model _pillar/netbox.py: Api has the arguments, the URLs and the
-- responses, Search the search of the device with its details and the services, Interfaces the
-- interfaces and the loop over the addresses, Site the site and the tags, Proxy the attempt to
-- add the key "proxy", and Run has ext_pillar, which goes through them in this order. A part ends
-- with return ret, or goes on with the device and the variable of the loop. Netbox behind
-- salt.utils.http.query is a parameter, a function of the request; so is the repr of a value that
-- is neither a number nor a text. JSON values are those of Prelude/Json, with the exceptions that
-- Python raises where a value has an unexpected type; names that become keys are texts.
--
-- Dhcpd and its modules model dhcp-server/dhcpd_to_context.py: Blocks has the removal of comments
-- and _blocks, Patterns the patterns that parse searches for, Context has the loop of parse over
-- the blocks, and Reservations the rest of parse and the counts of main. A call returns, raises,
-- or ends the program with a message. An optional key of a dict is an optional field, and a
-- missing list of reservations an empty one. The module ipaddress is the parameter Ip; digits are
-- the ASCII ones, and the exception of an address that is none has a stand-in for its message.
-- The loops over the text, the blocks, and the reservations are structural.
--
-- Geoip and its modules model haproxy/files/generate_geoip_maps.py: the two loops over the
-- networks of a database, and write_map. Parameters are the two databases, each a list of
-- networks with their records, and the text of a value that is neither a text nor an integer; the
-- result is the text of the four files, with the counts that are printed. Lines and Maps have a
-- reader of the map files as HAProxy reads them.
--
-- Not modelled: the commands that the collectors of respondd call, with what the collectors read
-- from files, sockets and netifaces, respondd/respondd-tmpl/ext-respondd.py,
-- _pillar/netbox_new.py, _modules/cfssl_certs.py, _modules/wireguard_v6.py,
-- icinga2/mattermost-notifications.py, the tests, and everything that is not Python: states,
-- templates, configuration, shell, Lua and Go.
pub mod Prelude
pub mod Cloudflare
pub mod Ddns
pub mod Dhcpd
pub mod Geoip
pub mod Kea
pub mod Netbox
pub mod Pillar
pub mod Rdns
pub mod Respondd
pub mod Telegraf
