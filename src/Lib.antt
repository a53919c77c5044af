-- ===== src/Lib.antt =====
-- MQTTraffic-Warden, a gateway that routes the messages of an MQTT broker: it subscribes to the
-- input topics of its routes, lets the stream transformers of a route change topic and payload,
-- and publishes the result on the route's output topic.
--
-- The program's parts and the files that model them:
-- * src/utilities.cpp, src/cast.cpp, include/cast.h. Strings (`splitString`, `joinStrings`),
--   Address (`isValidIp`: its two regular expressions as data, `regex_match` by derivatives, and
--   the language of a regular expression in Address/Language), Numbers (`isInt` and the integer
--   casts), Booleans (`isBool`, the boolean cast), Casts (the casts of the other types). Texts are
--   lists of bytes. `split_string` runs its loop on fuel, one round more than the text has
--   characters; each round takes at least one character off where the token is not empty, and the
--   program's only token is "/".
-- * src/json_utilities.cpp. Json has what the program calls of nlohmann::json as a record of
--   operations with their laws, and Json/Utilities has `dump_json` and `json_to_string`.
-- * src/stream_transformer_*.cpp. Transformer has the keys and types that the four classes share,
--   its children TopicToTopic, PayloadToTopic, TopicToPayload and PayloadToPayload each have
--   `is_valid_setup`, `setup` and `execute` of one class, and Dispatch the virtual call. An object
--   is its `m_transformation`. What `execute` changes through a reference, it returns. Topic has
--   the insertion of a sub-topic that two of them share, and Topic/Parts topics and lists of
--   sub-topics as types.
-- * src/traffic_warden.cpp. Warden/Topics has `is_valid_topic`, Warden/Broker
--   `retrieve_broker_infos` and `configure_mqtt_client`, Warden/Routes `retrieve_routes` with its
--   checks, Warden/Pipeline the three threads `ingest`, `transform` and `publish` with the
--   callback `message_arrived` of include/mqtt_client_connection_callback.h. Warden/Startup has
--   `init` with the calls that join its threads, whose loops take turns in a list of events, and
--   `main`, with the loop that waits for "q" on the console. That loop is on fuel, since the console
--   may hold no "q"; Warden/Startup/Console says when some fuel is enough. For which
--   addresses and client ids the constructor of the Paho client throws is a parameter of
--   `configure_mqtt_client`.
-- * src/main.cpp. Program has the signal handler, the text of the version, whose three numbers
--   come from the generated version.h, the schema loader and the settings of the logger; `main` is
--   in Warden/Startup.
-- * src/mqtt_client.cpp, include/mqtt_client_connection_callback.h. Client has the calls of
--   `MqttClient` and the callbacks on the connection, Client/Connection what the Paho client can
--   report: the outcome of an attempt that has started, and the loss of a connection.
--   Client/Attempts has the calls of `connect`, Client/Logs the callbacks that only write log
--   lines, those of include/mqtt_subscribe_action_listener.h among them; Logging has what a log
--   line is.
-- * The parts together. Warden/Gateway has the client and the threads as one state. A move is a
--   report of the Paho client, a delivery of the broker over a connection with a subscription for
--   the topic, or a step of a thread; a publication is taken exactly if there is a connection.
--   What topics a subscription is for is a parameter, since the broker decides it.
--   Warden/Gateway/Runs reads a run of moves as a run of steps of the threads, with the messages
--   that the broker has delivered, Warden/Gateway/Arrivals and Delivered are about those messages, and
--   Warden/Gateway/Named about each single publication.
--
-- An exception is a value of `Exception`: one for each class of include/exceptions.h, one for
-- `std::out_of_range`, one for any exception of nlohmann::json, and one for `mqtt::exception`. An exception that leaves a
-- thread ends the process: the state's `terminated`. A thread's step is one that the other threads
-- can see, to pop a queue or to push one value, and a run is a list of such steps in any order
-- (Warden/Pipeline/Schedule). Warden/Pipeline/Owed has the publications that the specification
-- asks for a message, Warden/Pipeline/Progress the steps that are left for what is under way,
-- Warden/Pipeline/Fair the runs in which each thread has its turn again and again (one after another
-- in Warden/Pipeline/Rounds), Warden/Pipeline/Kinds the routes that are all alike,
-- Warden/Pipeline/Permuted the publications up to their order, Warden/Pipeline/InOrder and Order the
-- order of the publications, Warden/Pipeline/Failures what ends the process,
-- Warden/Pipeline/Harmless and Survival the runs in which nothing does, Counts and Delivered what
-- these publish, Warden/Pipeline/Frames and Ended what a step leaves alone, and
-- Warden/Pipeline/Named what each publication has. A queue is an interface,
-- Queue, with the laws of a queue that keeps the order; the values for which the theorems are
-- tried are in Sample, the tests in Tests.
--
-- The order of the keys in a JSON object and in the map of routes is left open, since the program
-- does not rely on it. The floating-point conversions of the C++ library are parameters. Not
-- modelled: the inside of the Paho client, a lack of memory or of threads, the sleeps of the threads, the log lines of the
-- functions that do more than to write them, the logo, and the class names of
-- include/reflection.h, which stand in log lines only.
mod Common
pub mod Strings
pub mod Topic
pub mod Numbers
pub mod Booleans
pub mod Json
pub mod Casts
pub mod Logging
pub mod Program
pub mod Transformer
pub mod Address
pub mod Client
pub mod Warden
pub mod Queue
pub mod Sample
mod Tests
