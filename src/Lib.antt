-- ===== src/Lib.antt =====
-- A verification library for the Android Game SDK: Tuning Fork (src/tuningfork), which records frame times in
-- histograms and uploads them, and Swappy (src/swappy), which paces the frames of an application.
--
-- The parts of Tuning Fork, from the bottom up. An annotation, a set of enum values, is a protobuf message that
-- is decoded to an id (src/tuningfork/annotation_util.cpp: Annotation, with the base-128 numbers in
-- Annotation.Base128). A histogram counts frame times in buckets (src/tuningfork/histogram.cpp: Histogram). A
-- prong is the histogram of one annotation and one instrument key, and a cache holds all prongs
-- (src/tuningfork/prong.cpp: Prong). TuningForkImpl (src/tuningfork/tuningfork.cpp: TuningFork) turns ticks and
-- traces into samples of the current one of two caches, and hands it over to the upload thread
-- (src/tuningfork/uploadthread.cpp: `submit` and `run_upload` of TuningFork; its debug backend is
-- UploadThread). TuningFork.Init is its construction, TuningFork.Api the functions of the namespace.
--
-- The parts of Swappy. SwappyCommon (src/swappy/common/SwappyCommon.cpp: SwappyCommon) holds the state of frame
-- pacing: the sliding window of frame durations, the automatic swap interval and the refresh rate
-- (SwappyCommon.Refresh), and the waits around a swap (SwappyCommon.Pacing). SwappyGL
-- (src/swappy/opengl/SwappyGL.cpp: SwappyGl) drives it around eglSwapBuffers and records statistics of the
-- presented frames (src/swappy/common/FrameStatistics.cpp: FrameStatistics). The Choreographer filter
-- (src/swappy/common/ChoreographerFilter.cpp: ChoreographerFilter) smooths the callbacks that wake SwappyCommon,
-- and CpuInfo (src/swappy/common/CpuInfo.cpp: CpuInfo) tells little and big cores apart.
--
-- SwappyGL's fences and their waiting thread are in Egl (src/swappy/opengl/EGL.cpp). Settings
-- (src/swappy/common/Settings.cpp: Settings) notifies its listeners, of which each SwappyCommon is one. The count of
-- Choreographer callbacks before idle is ChoreographerThread (src/swappy/common/ChoreographerThread.cpp).
--
-- Swappy for Vulkan. SwappyVk (src/swappy/vulkan/SwappyVk.cpp: SwappyVk, its setters in SwappyVk.Setters) has maps
-- from devices, swapchains and queues to implementations; a shared pointer is the number of an object in a list, so
-- that two maps share it. An implementation (src/swappy/vulkan/SwappyVkFallback.cpp and
-- SwappyVkGoogleDisplayTiming.cpp: SwappyVkBase.Present) drives SwappyCommon around vkQueuePresentKHR, and
-- src/swappy/vulkan/SwappyVkBase.cpp (SwappyVkBase, its destruction in SwappyVkBase.Release) has the sync objects of
-- a queue: free, waiting, held by the waiting thread, or signaled. The calls of the application and the parts of the
-- waiting thread between two locks are a step relation (SwappyVkBase.Steps).
--
-- What is uploaded is written by src/tuningfork/clearcutserializer.cpp (ClearcutSerializer) over nanopb, which is a
-- parameter, through the streams of src/tuningfork/protobuf_util.cpp (ProtobufUtil).
--
-- The report on the device (src/device_info/device_info.cpp) is DeviceInfo, with EGL, GL and `createProto` in
-- DeviceInfo.Proto.
--
-- Tuning Fork and Swappy meet in TuningForkExtra (src/tuningfork/tuningfork_extra.cpp): the wrapper that ticks and
-- traces at Swappy's callbacks. Its thread for fidelity parameters and the saved file are TuningForkExtra.Download,
-- and what is found in the APK when the application starts is TuningForkExtra.Startup.
--
-- How the code is modelled. An object is a record, and a method is a function from the state to the new state
-- and the result, with the name of the method in the spelling of this library. A failure is none or an error
-- code. The clock, the files and what EGL answers are arguments. The arithmetic of double is a parameter
-- (Double), since no theorem needs a law of it; its instance on whole numbers runs the tests. An unsigned
-- integer of w bits has its wrap-around written out. Signed 64-bit durations are numbers that are not
-- negative, and differences are compared by moving terms, as each file says. What is undefined in C++, such as a
-- write outside a vector, is no write, as the definition says. The application's calls and the rounds of the
-- upload thread are a step relation (TuningFork.Reach), in any order; a round takes and clears the waiting
-- cache at once, and the calls that come while it is processed are those before the round.
--
-- Loops are structural or have fuel. The decoder has one unit more than the message has bytes, and each round
-- takes at least one byte. Writing a base-128 number takes at most ten rounds of seven bits. The loop over the
-- base time of the timer has the point of time as fuel, and the loop of sleep the present time: both move on by a
-- positive period in each round. `split` of CpuInfo has the length of the string, and takes a character in each
-- round. `run_waiter` has a number of steps that the theorem on it gives; `collect` has the steps
-- of a thread that is stopped. `download_loop` has one attempt more than the longest wait has milliseconds: the wait
-- is doubled after each attempt.
--
-- What is not modelled: JNI, threads and locks beyond the step relations, system files, the calls of Vulkan and EGL
-- themselves, the nano protobuf library, the HTTP request for fidelity parameters and the crash handler. The log,
-- system traces and the application's tracer callbacks are left out everywhere. Histogram::ToJSON only prints. Of
-- the report on the device the constants of GL, which are copied one by one, are left out.
mod Prelude
pub mod Annotation
pub mod ChoreographerFilter
pub mod ChoreographerThread
pub mod ClearcutSerializer
pub mod CpuInfo
mod Double
pub mod DeviceInfo
pub mod Egl
pub mod FrameStatistics
pub mod Histogram
pub mod Prong
pub mod ProtobufUtil
pub mod SwappyCommon
pub mod SwappyGl
pub mod SwappyVk
pub mod SwappyVkBase
pub mod Settings
pub mod TuningFork
pub mod TuningForkExtra
pub mod UploadThread
