-- ===== src/Lib.antt =====
-- Verification library of cordial, the tools and packages around Geneos.
--
-- The parts of the program that are modelled, and how they interact:
--   * pkg/geneos/xpath names an element of a running gateway by a path. Code that reads or writes
--     such elements makes a path (New, ResolveTo), prints it (String), reads one (Parse) and
--     offers its names to an expansion as a lookup table (LookupValues).
--   * pkg/config holds settings, and expands `${...}` in them when they are read. The options of
--     an expansion come from the caller and from the configuration; some add prefix functions.
--   * pkg/ims prepares an incident for a remote system: Transform maps its fields, and action
--     groups set and unset fields under conditions, which are expansions with prefixes that
--     pkg/ims adds.
--   * pkg/geneos unrolls the groups of a gateway's configuration into maps by name, which the
--     gateway reporter reads.
--   * tools/geneos/internal/geneos finds the release that a link selects, orders releases by their
--     versions, lists the archives that a release can be installed from, and knows the components.
--     tools/geneos/internal/values sets and unsets the settings of an instance in its configuration,
--     for the type of its component, and encodes secrets with a key file of pkg/config.
--     tools/geneos/internal/instance finds a port for a new instance, and reads and
--     matches the names of instances. An update of a release stops the instances that use it.
--   * pkg/certs reads certificates and keys in PEM format, makes verified bundles of them, and keeps the
--     file of root certificates.
--
-- Which file models what (paths from the root of the repository):
--   * Common, Common/*: byte strings, native numbers, lists and Boolean tests. Text, Text/*: the
--     functions of Go's `strings` that the program calls. Dict: Go's maps, as association lists;
--     the order of the list is the order in which `range` visits the map.
--   * XPath (pkg/geneos/xpath/xpath.go): XPath and its parts, New* as new*, ResolveTo as resolve_to
--     and resolve_*, the Is* tests. XPath/Print: String as print. XPath/Scan: splitWithEscaping,
--     getAttr, getAttributes. XPath/Parse: Parse, a function case_n for `case n:` with what it
--     falls through to. XPath/Lookup: LookupValues. XPath/Quote: `%q`. The theorems are in
--     XPath/Resolve, XPath/RoundTrip, XPath/Levels, XPath/Wildcard and XPath/Lookup, over the
--     lemmas of XPath/Component, Attribute, Reading, Attributes, Location, Printed, NoSlash and
--     Fills.
--   * Config/Value and Config/Options (pkg/config/expandoptions.go): the values and the options;
--     evalExpandOptions takes and returns the package variable defaultFuncMaps. Config/Contents:
--     getContents, with its loop as scan. Config/Substitute: _expand as substitute.
--     Config/Expand: expand, expandEncoded, expandRawString with a function for each of its
--     cases, mapEnv, fetchFile, ResolveHome. Config/Replace: replaceStringParam. Config/Store: get,
--     set, lookup, deleteKey and isSet, for strings, over the record Viper. Config/Pairs:
--     setKeyValuePairs and its regular expression. These are in pkg/config/internal.go,
--     but ResolveHome, which is in pkg/config/files.go. The theorems are in Config/Registry,
--     Contents, Names, Substitute, Encoded, Fallbacks, Replace, Pieces, Promoted and Appended.
--   * Config/Hex and Config/Secret (pkg/config/crypto.go): KeyValues, Encode and Decode with their
--     padding, as encode_secret and decode_secret; theorems in Config/Padded. Config/KeyFile:
--     KeyValues.String and ReadKeyValues; theorems in Config/Written.
--     Config/KeyFiles (pkg/config/keyfiles.go): EncodeString and DecodeString, with AbbreviateHome of
--     pkg/config/files.go; the theorem in Config/Readable joins them with the expansion.
--     Config/Credentials (pkg/config/credentials.go): FindCreds; the theorem is in Config/Longest,
--     over Config/Folded.
--   * Ims/Transform (pkg/ims/transform.go): Transform by its stages; theorems in Ims/Filtered.
--     Ims/Action (pkg/ims/action.go): ProcessActionGroup as process; theorems in Ims/Frame.
--     Ims/Prefixes: the five prefix functions; theorems in Ims/Chosen.
--   * Release/Current (tools/geneos/internal/geneos/versions.go): CurrentVersion, with theorems in
--     Release/Links. Release/Order: CompareVersion, with theorems in Release/Compare.
--     Release/Archives: LocalArchives, with theorems in Release/Listed. Release/Update:
--     InstalledReleases, and update of tools/geneos/internal/geneos/package.go with its deferred
--     restarts; which instances run afterwards is in Release/Updated, and the theorems on the links, joined
--     with CurrentVersion, are in Release/Relinked, over Release/Newest.
--   * Components (tools/geneos/internal/geneos/component.go): IsA, ParseComponent, OrList.
--   * Values/Variables, Values/Normal, Values/Slices, Values/Tables, Values/Flags
--     (tools/geneos/internal/values: variables.go, set.go, unset.go and the flags): the updates of
--     each type of setting. Values/Settings: Set as set, Unset as unset_values, updateEncoded. What
--     they use of a configuration is the record Conf of Values/Conf; Values/InMap and Values/Expanding,
--     which expands what it reads by the model of pkg/config, have the laws that are asked of it. The theorems are in Values/Named, Kept, Normal, Merged, Tables, Applied (over
--     Framed) and Flags.
--   * Instance/Ports (tools/geneos/internal/instance/network.go): GetAllPorts as all_ports, NextFreePort
--     as next_free_port, whose parts are read by read_part and searched by scan; theorems in
--     Instance/Documented (over Instance/Free) and Instance/Ends. Instance/Names (tools/geneos/internal/instance/instance.go):
--     ParseName, IDString, ShortName, ReservedName, ValidName, and Match as match_names, with theorems
--     in Instance/Named and Instance/Matched.
--   * Unroll/Groups, Unroll/Rules, Unroll/Probes, Unroll/Entities (pkg/geneos/utils.go): UnrollTypes,
--     UnrollSamplers and UnrollProcessDescriptors as unroll and unroll_samplers, UnrollRules,
--     UnrollProbes, UnrollEntities. The info of a group is passed down beside the group, where the
--     code sets it in the group. The theorems are in Unroll/Latest, Flat, Probed (over Inherited)
--     and Resolved.
--   * Certs/Certificates (pkg/certs: certs.go, keys.go, read.go, write.go): the tests of validity, the search
--     for a key, ReadCertificates, WriteCertificatesTo with CertificateComments. Certs/Bundles (certs.go): Verify as verify_certs,
--     ParseCertChain, DecodePEM, ParsePEM; theorems in Certs/Bundles/Decoded and Certs/Bundles/Chains.
--     Certs/Roots (write.go): UpdateCACertsFiles; the theorems are in Certs/Written and, over Certs/Missing, in Certs/Renewed.
--   * Tests on concrete inputs are in the files called Samples, Config/StoreSamples,
--     Config/SecretSamples, Release/UpdateSamples and Instance/NameSamples; Certs/SamplePem has
--     certificates and a PEM format that fulfil the laws.
--
-- Bounds and parameters:
--   * A string is the list of its bytes. unicode.IsLetter, unicode.IsSpace and the quoting of `%q`
--     are those of ASCII. A pointer that may be nil is an Option.
--   * The loop of replaceStringParam has fuel: the length of the text and one. It is enough, since
--     each round removes a closing brace. The loop of NextFreePort over a range has 65536 rounds, all
--     ports: one that has not ended then has found every port used, and goes on for ever.
--     The loop over pem.Decode has the length of the data as its fuel: each block that is found leaves
--     less data, which PemLaws states, and read-write_certificates shows that all blocks are
--     reached. Every other function is structural.
--   * CurrentVersion follows ten links at most, and so does its model: that number is the code's.
--   * The operating system, viper, json.Marshal and the decoding of a key file are the record
--     World of Config/Expand. Regular expressions whose pattern is data are a parameter, and so
--     is the expansion that pkg/ims calls. A panic and an exit of the process are results. What
--     viper documents of its keys is the record ViperLaws, a hypothesis of the theorems on the
--     settings. AES in CBC mode is the record Cipher of Config/Secret, and what it promises on
--     whole blocks is the record CipherLaws. The version package and its order are the record
--     Versions of Release/Order. The settings that tools/geneos/internal/values reads and writes are
--     the record Conf of Values/Conf, whose laws SliceLaws say that what is written under a key
--     of lower-case letters is stored there as it is and is deleted there, that other such keys keep
--     theirs, and that Get returns a stored text as it is where there is nothing to replace in it. A directory of releases is
--     the record Host of Release/Update, and LinkLaws of Release/Relinked what is asked of its links;
--     RunLaws of Release/Updated says which instances run after a stop and a start;
--     hosts of instances are the record Hosts of Instance/Names. crypto/x509 and encoding/pem are the
--     record X509 of Certs/Certificates, whose documented behaviour is in PemLaws and ChainLaws: Decode passes over
--     lines in which no block begins. The formats of names, times and digests are parameters of it; the files
--     of root certificates are the record CaFiles of Certs/Roots with FileLaws.
--   * slices.SortFunc is an insertion sort; on distinct names under a total order every sort gives
--     the same list. The order of credentials of one length is that of the list.
--   * Where a map is renamed while a loop visits it, the loop visits the keys that were there when
--     it started. Go leaves it open whether it visits the added ones too.
--   * A line of a key file is no longer than the buffer of bufio.Scanner, 64 kB.
--   * strconv.ParseInt is for an int of 64 bits.
--
-- Not modelled: expansion into []byte and the other types of get; fetchURL and the expressions of
-- gval, which call the network and another package; the files that settings are read from and
-- written to; the rest of tools/geneos, and the programs under gdna, integrations, libraries and
-- elsewhere in tools.
mod Common
pub mod Text
pub mod Dict
pub mod XPath
pub mod Config
pub mod Ims
pub mod Release
pub mod Values
pub mod Components
pub mod Instance
pub mod Unroll
pub mod Certs
